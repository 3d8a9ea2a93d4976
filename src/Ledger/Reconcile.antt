-- ===== src/Ledger/Reconcile.antt =====
-- The specification of the ledger's books: an account's balance is the net of its postings.
use Prim.Native.String.{◌++◌ as ◌+ˢ◌}
use open_rgs_go.Prelude.{
  ℕ, ◌+◌, ◌<◌, String, ◌≡◌, ◌≢◌, ◌∙◌, none, some, List, [], ◌∷◌, arith, ◌=ˢ◌, eq_iff, inl, inr,
  Option-cases, if◌then◌else◌,
}
use open_rgs_go.Prelude.Int64.{two64, ◌+64◌, ◌-64◌}
use open_rgs_go.Prelude.Dict.{Dict, lookup, insert, lookup-insert, lookup-insert_ne}
use open_rgs_go.Ledger.State.{LedgerAccount, LedgerPosting}
use open_rgs_go.Ledger.Books.{tx_id, new_account}
use open_rgs_go.Ledger.Persist.{posting_delta}
use open_rgs_go.Ledger.Mutation.{Movement, movement_postings, apply_side, Side}
use open_rgs_go.Ledger.Identifiers.{tx_id-injective}

-- The balance of an account, 0 for one that is not there.
unfoldable pub balance_in : String → Dict LedgerAccount → ℕ
balance_in a accounts = elim (lookup a accounts) [ none ↦ 0 | some acct ↦ acct.available ]

-- What a posting adds to the account `a`, as an int64.
unfoldable pub posting_effect : String → LedgerPosting → ℕ
unfolding posting_delta
posting_effect a p = if p.account_id =ˢ a then posting_delta p else 0

unfoldable pub net_postings : String → List LedgerPosting → ℕ
unfolding posting_effect
net_postings a [] = 0
net_postings a (p ∷ ps) = posting_effect a p +64 net_postings a ps

unfoldable pub net_books : String → Dict (List LedgerPosting) → ℕ
net_books a [] = 0
net_books a ((_, ps) ∷ d) = net_postings a ps +64 net_books a d

-- An account that is none of the house's own.
pub record IsCustomer (a : String) : Type 0 where
  pub not_liability : "operator_liability" ≢ a
  pub not_escrow : "device_escrow" ≢ a
  pub not_device : (device : String) → ("device_escrow:" +ˢ device) ≢ a

pub net_books-insert_new :
    (a id : String) (ps : List LedgerPosting) (d : Dict (List LedgerPosting))
    → lookup id d ≡ none
    → net_books a (insert id ps d) ≡ net_books a d +64 net_postings a ps
unfolding net_books lookup insert ◌+64◌
net_books-insert_new a id ps [] h = ground arith
net_books-insert_new a id ps ((j, qs) ∷ d) h = ground (arith, net_books-insert_new a id ps d)

-- The postings of a movement change its own account as the handler does, and no other customer's.
movement_net_self :
    (now : ℕ) (m : Movement) (acct : LedgerAccount) (n : ℕ)
    → m.other ≢ m.account_id
    → acct.available ≡ n
    → n < two64
    → (apply_side m.side m.amount acct).available
      ≡ n +64 net_postings m.account_id (movement_postings now m)
unfolding net_postings movement_postings apply_side ◌+64◌ ◌-64◌
movement_net_self now m acct n h e r =
    ground (arith, eq_iff m.other m.account_id, eq_iff m.account_id m.account_id)

movement_net_other :
    (now : ℕ) (m : Movement) (a : String)
    → m.other ≢ a
    → m.account_id ≢ a
    → net_postings a (movement_postings now m) ≡ 0
unfolding net_postings movement_postings ◌+64◌
movement_net_other now m a h k = ground (arith, eq_iff m.other a, eq_iff m.account_id a)

apply_side_range :
    (side : Side) (amount : ℕ) (acct : LedgerAccount)
    → (apply_side side amount acct).available < two64
unfolding apply_side ◌+64◌ ◌-64◌
apply_side_range side amount acct = ground arith

pub balance_in-insert :
    (a b : String) (acct : LedgerAccount) (accounts : Dict LedgerAccount)
    → balance_in b (insert a acct accounts)
      ≡ (if a =ˢ b then acct.available else balance_in b accounts)
unfolding balance_in
balance_in-insert a b acct accounts = ground (arith, lookup-insert a b acct accounts)

add64_zero : (n : ℕ) → n < two64 → n +64 0 ≡ n
unfolding ◌+64◌
add64_zero n h = omega arith

-- The books of a service without a database: transaction ids to come are unused, balances are
-- int64 values, and every customer's balance is the net of the postings.
pub record Reconciled (next_id : ℕ) (accounts : Dict LedgerAccount)
    (postings : Dict (List LedgerPosting)) : Type 0 where
  pub fresh : (n : ℕ) → next_id < n → lookup (tx_id n) postings ≡ none
  pub range :
      (a : String) (acct : LedgerAccount) → lookup a accounts ≡ some acct → acct.available < two64
  pub balanced : (a : String) → IsCustomer a → balance_in a accounts ≡ net_books a postings

module _ {next_id : ℕ} {accounts : Dict LedgerAccount} {postings : Dict (List LedgerPosting)}
    (r : Reconciled next_id accounts postings) where
  -- A stored account's balance is below 2 ^ 64, and a missing one's is 0.
  pub balance_in-lt : (a : String) → balance_in a accounts < two64
  unfolding balance_in
  balance_in-lt a = elim (Option-cases (lookup a accounts)) [
    | inl missing ↦ rw (missing, balance_in) (omega arith)
    | inr (acct, e) ↦ rw (e, balance_in) (r.range a acct e)
  ]

  -- Writing back an account with the balance that it has keeps the books.
  pub rewrite-Reconciled :
      (a : String) (acct : LedgerAccount)
      → acct.available ≡ balance_in a accounts
      → Reconciled (next_id + 1) (insert a acct accounts) postings
  unfolding balance_in
  rewrite-Reconciled a acct e = record {
    fresh = λ n h. r.fresh n (omega arith);
    range = λ b x h. ground (
      arith,
      lookup-insert a b acct accounts,
      eq_iff a b,
      r.range b x,
      r.range a,
      balance_in-lt a,
    );
    balanced = λ b c.
        ground (arith, lookup-insert a b acct accounts, eq_iff a b, r.balanced b c, r.balanced a);
  }

  -- A new account with a zero balance keeps the books.
  pub create-Reconciled :
      (a currency : String)
      → lookup a accounts ≡ none
      → Reconciled next_id (insert a (new_account a currency) accounts) postings
  unfolding balance_in
  create-Reconciled a currency e = record {
    fresh = r.fresh;
    range = λ b x h.
        ground
          (arith, lookup-insert a b (new_account a currency) accounts, eq_iff a b, r.range b x);
    balanced = λ b c.
        ground
          (arith, lookup-insert a b (new_account a currency) accounts, eq_iff a b, r.balanced b c);
  }

  -- Posting a movement whose other side is the house's keeps the books.
  pub movement-Reconciled :
      (now : ℕ) (m : Movement) (acct : LedgerAccount)
      → ((a : String) → IsCustomer a → m.other ≢ a)
      → acct.available ≡ balance_in m.account_id accounts
      → Reconciled
          (next_id + 1)
          (insert m.account_id (apply_side m.side m.amount acct) accounts)
          (insert (tx_id (next_id + 1)) (movement_postings now m) postings)
  movement-Reconciled now m acct house e = record {
    fresh = λ n h. fresh_after n h;
    range = λ b x h. ground (
      arith,
      lookup-insert m.account_id b (apply_side m.side m.amount acct) accounts,
      eq_iff m.account_id b,
      r.range b x,
      apply_side_range m.side m.amount acct,
    );
    balanced = λ b c. ground (
      arith,
      balance_in-insert m.account_id b (apply_side m.side m.amount acct) accounts,
      eq_iff m.account_id b,
      r.balanced b c,
      house b c,
      net_books-insert_new b (tx_id (next_id + 1)) (movement_postings now m) postings,
      r.fresh (next_id + 1),
      movement_net_self now m acct (balance_in b accounts),
      balance_in-lt b,
      movement_net_other now m b,
      add64_zero (net_books b postings),
    );
  }
    where
      fresh_after :
          (n : ℕ)
          → next_id + 1 < n
          → lookup (tx_id n) (insert (tx_id (next_id + 1)) (movement_postings now m) postings)
            ≡ none
      fresh_after n h =
          lookup-insert_ne (tx_id (next_id + 1)) (tx_id n) (movement_postings now m) postings
            (λ q. absurd (omega (arith, tx_id-injective (next_id + 1) n q)))
          ∙ r.fresh n (omega arith)
