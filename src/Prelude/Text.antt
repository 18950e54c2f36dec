-- ===== src/Prelude/Text.antt =====
-- Text as the list of its UTF-16 code units, as `length` and the regular expressions of the source
-- read it, with its equality test.
use Prim.Native.Nat.{ℕ}
use Prim.Native.Char.{code}
use Prim.Native.String.{String}
use mathlib.Core.Path.{◌≡◌, refl}
use mathlib.Core.Logic.{◌↔◌}
use mathlib.Core.Bool.{Bool, true, false, ◌&&◌, ◌||◌}
use mathlib.Core.List.{List, [], ◌∷◌}
use native.Mathlib.Omega.{arith}
use converge_audit.Prelude.Tests.{ltb, leb, ◌==◌}
use converge_audit.Prelude.Lists.{length, all}

abbrev pub Text : Type 0
Text = List ℕ

-- The code units of an ASCII literal.
abbrev pub codes : String → Text
codes String.[] = []
codes (String.◌∷◌ c s) = code c ∷ codes s

unfoldable pub text_eq : Text → Text → Bool
text_eq [] [] = true
text_eq [] (d ∷ ds) = false
text_eq (c ∷ cs) [] = false
text_eq (c ∷ cs) (d ∷ ds) = (c == d) && text_eq cs ds

pub text_eq_iff : (a b : Text) → (text_eq a b ≡ true) ↔ (a ≡ b)
unfolding text_eq
text_eq_iff [] [] = ground arith
text_eq_iff [] (d ∷ ds) = ground arith
text_eq_iff (c ∷ cs) [] = ground arith
text_eq_iff (c ∷ cs) (d ∷ ds) = ground (arith, text_eq_iff cs ds)

pub text_eq_refl : (a : Text) → text_eq a a ≡ true
text_eq_refl a = (text_eq_iff a a).1 refl

abbrev pub max_safe_integer : ℕ
max_safe_integer = 9007199254740991

-- `Number.isSafeInteger(n) && n >= 0`, and `> 0`, on a whole number that is not negative.
abbrev pub safe_non_negative_integer : ℕ → Bool
safe_non_negative_integer n = leb n max_safe_integer

abbrev pub safe_positive_integer : ℕ → Bool
safe_positive_integer n = ltb 0 n && leb n max_safe_integer

abbrev pub bounded_text : Text → ℕ → Bool
bounded_text t max = ltb 0 (length t) && leb (length t) max

abbrev pub is_alphanumeric : ℕ → Bool
is_alphanumeric c =
    (leb b'A' c && leb c b'Z') || (leb b'a' c && leb c b'z') || (leb b'0' c && leb c b'9')

-- The class [A-Za-z0-9._:-].
abbrev pub is_identifier_unit : ℕ → Bool
is_identifier_unit c = is_alphanumeric c || c == b'.' || c == b'_' || c == b':' || c == b'-'

-- /^[A-Za-z0-9][A-Za-z0-9._:-]*$/
unfoldable pub matches_identifier : Text → Bool
matches_identifier [] = false
matches_identifier (c ∷ cs) = is_alphanumeric c && all is_identifier_unit cs

abbrev pub identifier : Text → ℕ → Bool
identifier t max = bounded_text t max && matches_identifier t

abbrev pub is_lower_hex : ℕ → Bool
is_lower_hex c = (leb b'0' c && leb c b'9') || (leb b'a' c && leb c b'f')

-- /^[0-9a-f]{n}$/
abbrev pub is_hex : ℕ → Text → Bool
is_hex n t = (length t == n) && all is_lower_hex t
