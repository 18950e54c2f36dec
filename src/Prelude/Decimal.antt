-- ===== src/Prelude/Decimal.antt =====
-- The decimal digits of a whole number, as a template literal or `JSON.stringify` writes it.
use Prim.Native.Nat.{ℕ, zero, suc, ◌+◌, ◌-◌, ◌*◌, ◌/◌, ◌%◌, ◌<◌}
use mathlib.Core.Path.{◌≡◌, refl, sym, ap, ◌∙◌}
use mathlib.Core.Bool.{Bool, true, false, ◌&&◌}
use mathlib.Core.Logic.{inl, inr}
use mathlib.Core.List.{[], ◌∷◌, ◌++◌}
use native.Mathlib.Omega.{arith}
use converge_audit.Prelude.Tests.{ltb, leb, if◌then◌else◌, Bool-cases}
use converge_audit.Prelude.Lists.{all, all-append}
use converge_audit.Prelude.Text.{Text}

-- On fuel: a number is above the count of its divisions by ten.
digits_from : ℕ → ℕ → Text
digits_from zero n = []
digits_from (suc f) n =
    let more = digits_from f (n / 10) ++ (b'0' + n % 10) ∷ [] in
    if ltb n 10 then (b'0' + n) ∷ [] else more

unfoldable pub decimal : ℕ → Text
unfolding digits_from
decimal n = digits_from (suc n) n

-- The number that a run of digits stands for.
abbrev read_from : ℕ → Text → ℕ
read_from acc [] = acc
read_from acc (c ∷ cs) = read_from (acc * 10 + (c - b'0')) cs

read_from-append : (acc : ℕ) (a b : Text) → read_from acc (a ++ b) ≡ read_from (read_from acc a) b
read_from-append acc [] b = refl
read_from-append acc (c ∷ cs) b = read_from-append (acc * 10 + (c - b'0')) cs b

read_from-digits_from : (f n : ℕ) → n < f → read_from 0 (digits_from f n) ≡ n
unfolding digits_from
read_from-digits_from zero n h = absurd (omega arith)
read_from-digits_from (suc f) n h = elim (Bool-cases (ltb n 10)) [
  | inl small ↦ rw small (omega arith)
  | inr big ↦
      rw (big, read_from-append)
        (rw (read_from-digits_from f (n / 10) (ground arith)) (omega arith))
]

-- Different numbers have different digits.
pub decimal_injective : (m n : ℕ) → decimal m ≡ decimal n → m ≡ n
unfolding decimal
decimal_injective m n e =
    sym (read_from-digits_from (suc m) m (omega arith))
    ∙ ap (read_from 0) e
    ∙ read_from-digits_from (suc n) n (omega arith)

abbrev pub is_digit : ℕ → Bool
is_digit c = leb b'0' c && leb c b'9'

digits_from-all : (f n : ℕ) → all is_digit (digits_from f n) ≡ true
unfolding digits_from
digits_from-all zero n = refl
digits_from-all (suc f) n = elim (Bool-cases (ltb n 10)) [
  | inl small ↦ rw small (ground arith)
  | inr big ↦
      rw big
        (all-append is_digit (digits_from f (n / 10)) _ (digits_from-all f (n / 10)) (ground arith))
]

pub decimal-all_digits : (n : ℕ) → all is_digit (decimal n) ≡ true
unfolding decimal
decimal-all_digits n = digits_from-all (suc n) n

abbrev pub head_is_digit : Text → Bool
head_is_digit [] = false
head_is_digit (c ∷ cs) = is_digit c

head_is_digit-append : (a b : Text) → head_is_digit a ≡ true → head_is_digit (a ++ b) ≡ true
head_is_digit-append [] b h = cc
head_is_digit-append (c ∷ a) b h = h

digits_from-head : (f n : ℕ) → n < f → head_is_digit (digits_from f n) ≡ true
unfolding digits_from
digits_from-head zero n h = absurd (omega arith)
digits_from-head (suc f) n h = elim (Bool-cases (ltb n 10)) [
  | inl small ↦ rw small (ground arith)
  | inr big ↦
      rw big (
        head_is_digit-append (digits_from f (n / 10)) _
          (digits_from-head f (n / 10) (ground arith)))
]

pub decimal-head_digit : (n : ℕ) (r : Text) → head_is_digit (decimal n ++ r) ≡ true
unfolding decimal
decimal-head_digit n r =
    head_is_digit-append (digits_from (suc n) n) r (digits_from-head (suc n) n (omega arith))
