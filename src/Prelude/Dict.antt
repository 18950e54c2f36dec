-- ===== src/Prelude/Dict.antt =====
-- A `Map` with text keys: an association list in insertion order.
use mathlib.Core.Path.{◌≡◌, refl}
use mathlib.Core.Logic.{inl, inr}
use mathlib.Core.Option.{Option, none, some}
use mathlib.Core.List.{List, [], ◌∷◌, Memᴰ}
use native.Mathlib.Omega.{arith}
use converge_audit.Prelude.Tests.{if◌then◌else◌, Bool-cases}
use converge_audit.Prelude.Text.{Text, text_eq, text_eq_iff}

abbrev pub Dict : Type 0 → Type 0
Dict V = List (Text × V)

module _ {V : Type 0} where
  abbrev pub lookup : Text → Dict V → Option V
  lookup k [] = none
  lookup k ((j, v) ∷ m) = let rest = lookup k m in if text_eq j k then some v else rest

  -- `m.set(k, v)` keeps the place of a key that is there.
  abbrev pub insert : Text → V → Dict V → Dict V
  insert k v [] = (k, v) ∷ []
  insert k v ((j, w) ∷ m) =
      let rest = insert k v m in if text_eq j k then (j, v) ∷ m else (j, w) ∷ rest

  pub lookup-insert :
      (k j : Text) (v : V) (m : Dict V)
      → lookup j (insert k v m) ≡ (if text_eq k j then some v else lookup j m)
  lookup-insert k j v [] = refl
  lookup-insert k j v ((i, w) ∷ m) =
      ground (arith, text_eq_iff k j, text_eq_iff i k, text_eq_iff i j, lookup-insert k j v m)

  pub mem-lookup :
      (k : Text) (m : Dict V) {v : V} → lookup k m ≡ some v → (j : Text) × Memᴰ (j, v) m
  mem-lookup k [] h = cc
  mem-lookup k ((j, w) ∷ m) {v} h = elim (Bool-cases (text_eq j k)) [
    | inl e ↦ (j, Memᴰ.head (pair_eq (rw e at h)))
    | inr e ↦ let rest = mem-lookup k m (rw e at h) in (rest.0, Memᴰ.tail rest.1)
  ]
    where
      pair_eq : some w ≡ some v → ◌≡◌ {A = Text × V} (j, v) (j, w)
      pair_eq h = cc
