-- ===== src/Prelude/Decimal.antt =====
-- strconv.FormatInt(n, 10) at a non-negative n, and what Atoi reads from such a text.
use Prim.Native.Nat.{ℕ, zero, suc, ◌+◌, ◌-◌, ◌*◌, ◌/◌, ◌%◌, ◌≤◌, ◌<◌}
use Prim.Native.Char.{Char, code}
use Prim.Native.String.{String, [], ◌∷◌}
use mathlib.Core.Path.{◌≡◌, refl, sym, ap, ◌∙◌}
use mathlib.Core.Logic.{◌≢◌}
use native.Mathlib.Omega.{arith}

-- The digit of a number below ten.
unfoldable pub digit : ℕ → Char
digit zero = "0"
digit (suc zero) = "1"
digit (suc (suc zero)) = "2"
digit (suc (suc (suc zero))) = "3"
digit (suc (suc (suc (suc zero)))) = "4"
digit (suc (suc (suc (suc (suc zero))))) = "5"
digit (suc (suc (suc (suc (suc (suc zero)))))) = "6"
digit (suc (suc (suc (suc (suc (suc (suc zero))))))) = "7"
digit (suc (suc (suc (suc (suc (suc (suc (suc zero)))))))) = "8"
digit _ = "9"

code-digit : (d : ℕ) → d < 10 → code (digit d) ≡ d + 48
unfolding digit
code-digit zero h = refl
code-digit (suc zero) h = refl
code-digit (suc (suc zero)) h = refl
code-digit (suc (suc (suc zero))) h = refl
code-digit (suc (suc (suc (suc zero)))) h = refl
code-digit (suc (suc (suc (suc (suc zero))))) h = refl
code-digit (suc (suc (suc (suc (suc (suc zero)))))) h = refl
code-digit (suc (suc (suc (suc (suc (suc (suc zero))))))) h = refl
code-digit (suc (suc (suc (suc (suc (suc (suc (suc zero)))))))) h = refl
code-digit (suc (suc (suc (suc (suc (suc (suc (suc (suc zero))))))))) h = refl
code-digit (suc (suc (suc (suc (suc (suc (suc (suc (suc (suc d)))))))))) h = absurd (omega arith)

-- The digits of a number in front of a text, at most `fuel` of them.
print_before : (fuel : ℕ) → ℕ → String → String
print_before zero n text = text
print_before (suc fuel) zero text = text
print_before (suc fuel) (suc n) text = print_before fuel (suc n / 10) (digit (suc n % 10) ∷ text)

-- A number has no more digits than its value says, so the number itself is enough fuel.
unfoldable pub format_int : ℕ → String
unfolding print_before digit
format_int zero = "0"
format_int (suc n) = print_before (suc n) (suc n) []

-- The number that a row of digits stands for, after digits that stand for `high`.
read_after : ℕ → String → ℕ
read_after high [] = high
read_after high (c ∷ text) = read_after (high * 10 + (code c - 48)) text

last_digit :
    (n : ℕ) (text : String) → read_after (n / 10) (digit (n % 10) ∷ text) ≡ read_after n text
unfolding read_after
last_digit n text = ap (λ k. read_after k text) (omega (arith, code-digit (n % 10)))

read_after-print_before :
    (fuel n : ℕ) (text : String)
    → n ≤ fuel
    → read_after 0 (print_before fuel n text) ≡ read_after n text
unfolding print_before
read_after-print_before zero zero text h = refl
read_after-print_before zero (suc n) text h = absurd (omega arith)
read_after-print_before (suc fuel) zero text h = refl
read_after-print_before (suc fuel) (suc n) text h =
    read_after-print_before fuel (suc n / 10) (digit (suc n % 10) ∷ text) (omega arith)
    ∙ last_digit (suc n) text

read_after-format_int : (n : ℕ) → read_after 0 (format_int n) ≡ n
unfolding read_after format_int
read_after-format_int zero = refl
read_after-format_int (suc n) = read_after-print_before (suc n) (suc n) [] (omega arith)

-- Two numbers with one decimal print are equal.
pub format_int-injective : (m n : ℕ) → format_int m ≡ format_int n → m ≡ n
format_int-injective m n h =
    sym (read_after-format_int m) ∙ ap (read_after 0) h ∙ read_after-format_int n

-- The number that a decimal stands for.
unfoldable pub read_int : String → ℕ
unfolding read_after
read_int text = read_after 0 text

pub read_int-format_int : (n : ℕ) → read_int (format_int n) ≡ n
unfolding read_int
read_int-format_int n = read_after-format_int n

print_before-shown : (fuel n : ℕ) (c : Char) (text : String) → print_before fuel n (c ∷ text) ≢ []
unfolding print_before
print_before-shown zero n c text e = cc e
print_before-shown (suc fuel) zero c text e = cc e
print_before-shown (suc fuel) (suc n) c text e =
    print_before-shown fuel (suc n / 10) (digit (suc n % 10)) (c ∷ text) e

-- A decimal is not the empty text.
pub format_int-shown : (n : ℕ) → format_int n ≢ ""
unfolding format_int print_before
format_int-shown zero e = cc e
format_int-shown (suc n) e = print_before-shown n (suc n / 10) (digit (suc n % 10)) [] e
