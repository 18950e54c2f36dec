-- ===== src/Prelude/Json.antt =====
-- `JSON.stringify` of the arrays that the canonical statements are made of: nested arrays of
-- strings, whole numbers that are not negative, and null.
pub mod Quote
pub mod Injective
use Prim.Native.Nat.{ℕ}
use mathlib.Core.List.{List, [], ◌∷◌, ◌++◌}
use converge_audit.Prelude.Text.{Text, codes}
use converge_audit.Prelude.Decimal.{decimal}
use Quote.{quote}

mutual
  pub data Json : Type 0 where
    null : Json
    num : ℕ → Json
    str : Text → Json
    arr : Items → Json

  pub data Items : Type 0 where
    nil : Items
    cons : Json → Items → Items

unfoldable mutual
  pub stringify : Json → Text
  stringify null = codes "null"
  stringify (num n) = decimal n
  stringify (str s) = quote s
  stringify (arr xs) = b'[' ∷ stringify_items xs

  -- The elements up to the closing bracket.
  pub stringify_items : Items → Text
  stringify_items nil = b']' ∷ []
  stringify_items (cons x xs) = stringify x ++ stringify_rest xs

  pub stringify_rest : Items → Text
  stringify_rest nil = b']' ∷ []
  stringify_rest (cons x xs) = b',' ∷ (stringify x ++ stringify_rest xs)

abbrev items : List Json → Items
items [] = nil
items (x ∷ xs) = cons x (items xs)

abbrev pub array : List Json → Json
array xs = arr (items xs)
