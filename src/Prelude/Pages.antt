-- ===== src/Prelude/Pages.antt =====
-- Slices of a list, and the pages of its listing by tokens.
use Prim.Native.Nat.{ℕ, zero, suc, ◌+◌, ◌-◌, ◌≤◌, ◌<◌}
use Prim.Native.String.{String}
use mathlib.Core.Path.{◌≡◌, refl, ap, ◌∙◌}
use mathlib.Core.List.{List, [], ◌∷◌, ◌++◌}
use native.Mathlib.Omega.{arith}
use open_rgs_go.Prelude.Tests.{ltb, if◌then◌else◌}
use open_rgs_go.Prelude.Decimal.{format_int}

module _ {A : Type 0} where
  unfoldable pub length : List A → ℕ
  length [] = 0
  length (x ∷ xs) = suc (length xs)

  unfoldable pub drop : ℕ → List A → List A
  drop zero xs = xs
  drop (suc n) [] = []
  drop (suc n) (x ∷ xs) = drop n xs

  unfoldable pub take : ℕ → List A → List A
  take zero xs = []
  take (suc n) [] = []
  take (suc n) (x ∷ xs) = x ∷ take n xs

  -- xs[from:to], for from ≤ to ≤ len(xs)
  unfoldable pub slice : ℕ → ℕ → List A → List A
  unfolding take drop
  slice from to xs = take (to - from) (drop from xs)

  pub take-drop : (n : ℕ) (xs : List A) → take n xs ++ drop n xs ≡ xs
  unfolding take drop
  take-drop zero xs = refl
  take-drop (suc n) [] = refl
  take-drop (suc n) (x ∷ xs) = ap (λ ys. x ∷ ys) (take-drop n xs)

  take_nil : (n : ℕ) → take n [] ≡ []
  unfolding take
  take_nil zero = refl
  take_nil (suc n) = refl

  pub slice-drop :
      (from to : ℕ) (xs : List A) → from ≤ to → slice from to xs ++ drop to xs ≡ drop from xs
  unfolding slice drop
  slice-drop zero to xs h = ap (λ k. take k xs ++ drop to xs) (omega arith) ∙ take-drop to xs
  slice-drop (suc from) zero xs h = absurd (omega arith)
  slice-drop (suc from) (suc to) [] h = ap (λ ys. ys ++ []) (take_nil (suc to - suc from))
  slice-drop (suc from) (suc to) (x ∷ xs) h =
      ap (λ k. take k (drop from xs) ++ drop to xs) (omega arith)
      ∙ slice-drop from to xs (omega arith)

  pub drop-length : (xs : List A) → drop (length xs) xs ≡ []
  unfolding drop length
  drop-length [] = refl
  drop-length (x ∷ xs) = drop-length xs

module _ {A : Type 0} where
  take-length : (xs : List A) → take (length xs) xs ≡ xs
  unfolding take length
  take-length [] = refl
  take-length (x ∷ xs) = ap (λ ys. x ∷ ys) (take-length xs)

  slice-length :
      (from : ℕ) (xs : List A)
      → from ≤ length xs
      → take (length xs - from) (drop from xs) ≡ drop from xs
  unfolding take drop length
  slice-length zero xs h = ap (λ k. take k xs) (omega arith) ∙ take-length xs
  slice-length (suc from) [] h = absurd (omega arith)
  slice-length (suc from) (x ∷ xs) h =
      ap (λ k. take k (drop from xs)) (omega arith) ∙ slice-length from xs (omega arith)

abbrev min : ℕ → ℕ → ℕ
min a b = if ltb b a then b else a

-- The page of `size` items from `start` on, and the token of the next page, empty at the end.
unfoldable pub page : {A : Type 0} → List A → ℕ → ℕ → List A × String
unfolding slice length
page xs start size =
    let n = length xs in
    let from = min start n in
    let to = min (from + size) n in (slice from to xs, if ltb to n then format_int to else "")

module _ {A : Type 0} (xs : List A) (start size : ℕ) where
  -- A page that ends before the list does names the next one.
  pub page-next :
      start + size < length xs
      → page xs start size ≡ (slice start (start + size) xs, format_int (start + size))
  unfolding page
  page-next h = ground (arith, h)

  -- The last page is the rest of the list.
  pub page-last :
      start ≤ length xs → length xs ≤ start + size → page xs start size ≡ (drop start xs, "")
  unfolding page
  page-last h k = ground (arith, h, k, slice-length start xs h)
