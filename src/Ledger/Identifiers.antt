-- ===== src/Ledger/Identifiers.antt =====
-- The identifiers and keys of ledger_grpc.go as texts.
use text.Mathlib.TextLemmas.{append_cancel_left}
use open_rgs_go.Prelude.{ℕ, ◌≡◌}
use open_rgs_go.Prelude.Decimal.{format_int, format_int-injective}
use open_rgs_go.Ledger.Books.{tx_id}

-- Two transactions with one id have one number.
pub tx_id-injective : (m n : ℕ) → tx_id m ≡ tx_id n → m ≡ n
unfolding tx_id
tx_id-injective m n h =
    format_int-injective m n (append_cancel_left "tx-" (format_int m) (format_int n) h)
