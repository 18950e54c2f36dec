-- ===== src/Prelude/Json/Quote.antt =====
-- The string form of `JSON.stringify`, with its escapes, and that it can be read back.
use Prim.Native.Nat.{ℕ, ◌+◌, ◌-◌, ◌*◌, ◌/◌, ◌%◌, ◌<◌}
use mathlib.Core.Path.{◌≡◌, refl, ap, ap₂, sym, ◌∙◌}
use mathlib.Core.Bool.{Bool, true, false, ◌&&◌, ◌||◌}
use mathlib.Core.Option.{Option, none, some}
use mathlib.Core.List.{[], ◌∷◌, ◌++◌, append_assoc}
use native.Mathlib.Omega.{arith}
use converge_audit.Prelude.Tests.{ltb, leb, ◌==◌, if◌then◌else◌}
use converge_audit.Prelude.Text.{Text, codes}

abbrev is_high : ℕ → Bool
is_high c = leb 0xd800 c && leb c 0xdbff

abbrev is_low : ℕ → Bool
is_low c = leb 0xdc00 c && leb c 0xdfff

abbrev starts_low : Text → Bool
starts_low [] = false
starts_low (c ∷ cs) = is_low c

pub hex_digit : ℕ → ℕ
hex_digit n = if ltb n 10 then b'0' + n else b'a' + (n - 10)

hex_value : ℕ → ℕ
hex_value c = if ltb c b'a' then c - b'0' else c - b'a' + 10

-- \uXXXX
pub hex_escape : ℕ → Text
hex_escape c =
    b'\\'
    ∷ b'u'
    ∷ hex_digit (c / 4096)
    ∷ hex_digit (c / 256 % 16)
    ∷ hex_digit (c / 16 % 16)
    ∷ hex_digit (c % 16)
    ∷ []

-- A control unit: by its short escape where it has one.
pub control : ℕ → Text
unfolding hex_escape
control c =
    if c == 8
    then codes "\\b"
    else if c == 9
    then codes "\\t"
    else if c == 10
    then codes "\\n"
    else if c == 12
    then codes "\\f"
    else if c == 13
    then codes "\\r"
    else hex_escape c

-- One code unit, by whether it is half of a surrogate pair; a lone surrogate is escaped.
unfoldable pub escape : Bool → ℕ → Text
unfolding control hex_escape
escape paired c =
    if c == b'"'
    then codes "\\\""
    else if c == b'\\'
    then codes "\\\\"
    else if ltb c 32
    then control c
    else if (is_high c || is_low c) && (if paired then false else true)
    then hex_escape c
    else c ∷ []

-- `after` says that the unit before was the high half of a pair with this one.
unfoldable pub escape_all : Bool → Text → Text
escape_all after [] = []
escape_all after (c ∷ cs) =
    escape (is_high c && starts_low cs || is_low c && after) c
    ++ escape_all (is_high c && starts_low cs) cs

unfoldable pub quote : Text → Text
unfolding escape_all escape control hex_escape hex_digit
quote s = b'"' ∷ (escape_all false s ++ b'"' ∷ [])

-- Reading one unit back.
read_hex : Text → Option (ℕ × Text)
read_hex (a ∷ b ∷ c ∷ d ∷ r) =
    some (hex_value a * 4096 + hex_value b * 256 + hex_value c * 16 + hex_value d, r)
read_hex _ = none

abbrev short : ℕ → ℕ
short x =
    if x == b'b'
    then 8
    else if x == b't'
    then 9
    else if x == b'n'
    then 10
    else if x == b'f'
    then 12
    else if x == b'r'
    then 13
    else x

read_escape : Text → Option (ℕ × Text)
read_escape [] = none
read_escape (x ∷ r) = if x == b'u' then read_hex r else some (short x, r)

read_unit : Text → Option (ℕ × Text)
unfolding read_escape read_hex
read_unit [] = none
read_unit (c ∷ r) = if c == b'"' then none else if c == b'\\' then read_escape r else some (c, r)

hex_value-hex_digit : (n : ℕ) → n < 16 → hex_value (hex_digit n) ≡ n
unfolding hex_value hex_digit
hex_value-hex_digit n h = ground arith

read_unit-hex_escape : (c : ℕ) (r : Text) → c < 65536 → read_unit (hex_escape c ++ r) ≡ some (c, r)
unfolding read_unit hex_escape
read_unit-hex_escape c r h =
    rw
      (
        hex_value-hex_digit (c / 4096) (omega arith),
        hex_value-hex_digit (c / 256 % 16) (omega arith),
        hex_value-hex_digit (c / 16 % 16) (omega arith),
        hex_value-hex_digit (c % 16) (omega arith),
      )
      (ap (λ n. some (n, r)) (omega arith))

read_unit-control : (c : ℕ) (r : Text) → c < 32 → read_unit (control c ++ r) ≡ some (c, r)
unfolding control read_unit
read_unit-control c r h = ground (arith, read_unit-hex_escape c r)

read_unit-escape : (p : Bool) (c : ℕ) (r : Text) → read_unit (escape p c ++ r) ≡ some (c, r)
unfolding escape read_unit
read_unit-escape p c r = ground (arith, read_unit-control c r, read_unit-hex_escape c r)

read_unit-escape_all :
    (p : Bool) (c : ℕ) (s r : Text)
    → read_unit (escape_all p (c ∷ s) ++ r)
      ≡ some (c, escape_all (is_high c && starts_low s) s ++ r)
unfolding escape_all
read_unit-escape_all p c s r = rw append_assoc (read_unit-escape _ c _)

some_parts :
    {a b : ℕ} {r s : Text}
    → ◌≡◌ {A = Option (ℕ × Text)} (some (a, r)) (some (b, s))
    → (a ≡ b) × (r ≡ s)
some_parts e = ground arith

-- Where two quoted bodies begin two equal texts, the bodies are equal, and so is what follows.
escape_all_cancel :
    (s t r u : Text) (p q : Bool)
    → escape_all p s ++ b'"' ∷ r ≡ escape_all q t ++ b'"' ∷ u
    → (s ≡ t) × (r ≡ u)
unfolding escape_all
escape_all_cancel [] [] r u p q e = (refl, cc)
escape_all_cancel [] (d ∷ t) r u p q e =
    absurd (none_ne_some (ap read_unit e ∙ read_unit-escape_all q d t _))
  where
    none_ne_some : {x : ℕ × Text} → read_unit (b'"' ∷ r) ≡ some x → ⊥
    none_ne_some h = unfold read_unit in ground arith
escape_all_cancel (c ∷ s) [] r u p q e =
    absurd (none_ne_some (sym (ap read_unit e) ∙ read_unit-escape_all p c s _))
  where
    none_ne_some : {x : ℕ × Text} → read_unit (b'"' ∷ u) ≡ some x → ⊥
    none_ne_some h = unfold read_unit in ground arith
escape_all_cancel (c ∷ s) (d ∷ t) r u p q e =
    let heads =
      some_parts
        (sym (read_unit-escape_all p c s _) ∙ ap read_unit e ∙ read_unit-escape_all q d t _) in
    let rest = escape_all_cancel s t r u _ _ heads.1 in (ap₂ ◌∷◌ heads.0 rest.0, rest.1)

pub quote_cancel : (s t r u : Text) → quote s ++ r ≡ quote t ++ u → (s ≡ t) × (r ≡ u)
unfolding quote
quote_cancel s t r u e = escape_all_cancel s t r u false false (
    sym (append_assoc (escape_all false s) _ r) ∙ tail_eq e ∙ append_assoc (escape_all false t) _ u)
  where
    tail_eq : {c : ℕ} {a b : Text} → c ∷ a ≡ c ∷ b → a ≡ b
    tail_eq h = cc
