-- ===== src/Ledger/Offline.antt =====
-- The service without a database (`db` is nil): every step as an equation on the state.
use open_rgs_go.Prelude.{
  ℕ, ◌<◌, String, ◌≡◌, refl, ap, Bool, true, Option, none, some, List, [], ◌∷◌, ◌++◌, arith,
}
use open_rgs_go.Prelude.Int64.{two64, ◌+64◌, ◌-64◌, sub64-add64, add64-sub64}
use open_rgs_go.Prelude.Dict.{lookup, insert}
use open_rgs_go.Proto.{RequestMeta}
use open_rgs_go.Audit.{InMemoryStore, Result}
use open_rgs_go.Ledger.State.{Ledger, LedgerAccount}
use open_rgs_go.Ledger.Env.{LedgerEnv}
use open_rgs_go.Ledger.Books.{drop_last, is_balanced, new_account}
use open_rgs_go.Ledger.Methods.{append_audit, mutation_account_state}
use open_rgs_go.Ledger.Mutation.{
  Movement, Side, money_in, money_out, opposite, movement_postings, apply_side,
}

abbrev pub offline : {Db : Type 0} → Ledger Db → Ledger Db
offline s = record s { db = none }

pub offline-eq : {Db : Type 0} (s : Ledger Db) → s.db ≡ none → s ≡ offline s
offline-eq s h = λ i. record s { db = h i }

pub drop_last-append : {A : Type 0} (xs : List A) (x : A) → drop_last (xs ++ (x ∷ [])) ≡ xs
unfolding drop_last
drop_last-append [] x = refl
drop_last-append (y ∷ []) x = refl
drop_last-append (y ∷ z ∷ zs) x = ap (λ t. y ∷ t) (drop_last-append (z ∷ zs) x)

-- The two postings of a movement balance, whatever the amount.
pub movement_postings-balanced :
    (now : ℕ) (m : Movement) → is_balanced (movement_postings now m) ≡ true
unfolding movement_postings is_balanced ◌+64◌ ◌-64◌
movement_postings-balanced now m = ground arith

pub apply_side_undo :
    (side : Side) (amount : ℕ) (acct : LedgerAccount)
    → acct.available < two64
    → apply_side (opposite side) amount (apply_side side amount acct) ≡ acct
unfolding apply_side
apply_side_undo money_in amount acct h =
    λ i. record acct { available = sub64-add64 acct.available amount h i }
apply_side_undo money_out amount acct h =
    λ i. record acct { available = add64-sub64 acct.available amount h i }

-- A state that differs from `s` in the audit store and its counter alone.
abbrev pub audited : {Db : Type 0} → Ledger Db → Option InMemoryStore → ℕ → Ledger Db
audited s store n = record s { audit_store = store; next_audit_id = n }

module _ (env : LedgerEnv) (now : ℕ) where
  pub append_audit-offline :
      (meta : Option RequestMeta) (object_type object_id action before after : String)
      (result : Result) (reason : String) (s : Ledger env.Db)
      → (store : Option InMemoryStore) × (n : ℕ) × (ok : Bool) × (append_audit env now meta
            object_type object_id action before after result reason
            (offline s)
          ≡ (ok, audited (offline s) store n))
  unfolding append_audit
  append_audit-offline meta object_type object_id action before after result reason s =
      let r =
        append_audit env now meta object_type object_id action before after result reason
          (offline s) in
      (r.1.audit_store, r.1.next_audit_id, r.0, ground arith)

  pub mutation_account_state_old :
      (account_id currency : String) (s : Ledger env.Db) (acct : LedgerAccount)
      → lookup account_id s.accounts ≡ some acct
      → mutation_account_state env now account_id currency (offline s) ≡ (some acct, offline s)
  unfolding mutation_account_state
  mutation_account_state_old account_id currency s acct e = ground (arith, e)

  pub mutation_account_state_new :
      (account_id currency : String) (s : Ledger env.Db)
      → lookup account_id s.accounts ≡ none
      → mutation_account_state env now account_id currency (offline s) ≡ (
        some (new_account account_id currency),
        record (offline s) {
          accounts = insert account_id (new_account account_id currency) s.accounts;
        },
      )
  unfolding mutation_account_state
  mutation_account_state_new account_id currency s e = ground (arith, e)
