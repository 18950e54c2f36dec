-- ===== src/DigestPlans/Merkle.antt =====
-- The Merkle root of payloads (examples/player-local-runtime/merkle-digest.ts). The backend's hash
-- and the framing of leaves, nodes and roots are arguments.
use converge_audit.Prelude.{
  ℕ, zero, suc, ◌≤◌, ◌≡◌, refl, ap, Option, none, some, List, [], ◌∷◌, length, map, arith,
}
use converge_audit.Prelude.Text.{Text}

pub record MerkleFraming : Type 0 where
  pub leaf : Text → Text
  pub node : Text → Text → Text
  pub empty : Text
  pub root : ℕ → Text → Text

module _ (hash_string : Text → Text) (framing : MerkleFraming) where
  -- One level up: pairs are hashed together, a last one alone with itself.
  unfoldable pub next_level : List Text → List Text
  next_level [] = []
  next_level (x ∷ []) = hash_string (framing.node x x) ∷ []
  next_level (x ∷ y ∷ rest) = hash_string (framing.node x y) ∷ next_level rest

  -- `while (current.length > 1)`, on fuel, and the first of what is left.
  unfoldable pub reduce : ℕ → List Text → Option Text
  reduce fuel [] = none
  reduce fuel (x ∷ []) = some x
  reduce zero (x ∷ y ∷ rest) = none
  reduce (suc fuel) (x ∷ y ∷ rest) = reduce fuel (next_level (x ∷ y ∷ rest))

  abbrev pub leaves : List Text → List Text
  leaves = map (λ p. hash_string (framing.leaf p))

  -- The content root, from which the root is made.
  unfoldable pub content_root : List Text → Option Text
  content_root [] = some (hash_string framing.empty)
  content_root (p ∷ ps) = reduce (length (p ∷ ps)) (leaves (p ∷ ps))

  abbrev finish : ℕ → Option Text → Option Text
  finish count none = none
  finish count (some content) = some (hash_string (framing.root count content))

  unfoldable pub merkle_root : List Text → Option Text
  merkle_root payloads = finish (length payloads) (content_root payloads)

  next_level_shorter :
      (x y : Text) (rest : List Text) → length (next_level (x ∷ y ∷ rest)) ≤ suc (length rest)
  unfolding next_level
  next_level_shorter x y [] = omega arith
  next_level_shorter x y (z ∷ []) = omega arith
  next_level_shorter x y (z ∷ w ∷ rest) = omega (arith, next_level_shorter z w rest)

  reduce-total :
      (fuel : ℕ) (x : Text) (xs : List Text)
      → length xs ≤ fuel
      → (content : Text) × (reduce fuel (x ∷ xs) ≡ some content)
  unfolding reduce next_level
  reduce-total fuel x [] h = (x, refl)
  reduce-total zero x (y ∷ rest) h = absurd (omega (arith, h))
  reduce-total (suc fuel) x (y ∷ rest) h =
      reduce-total fuel (hash_string (framing.node x y)) (next_level rest)
        (omega (arith, h, next_level_shorter x y rest))

  length-leaves : (ps : List Text) → length (leaves ps) ≡ length ps
  length-leaves [] = refl
  length-leaves (p ∷ ps) = ap suc (length-leaves ps)

  content_root-total : (ps : List Text) → (content : Text) × (content_root ps ≡ some content)
  unfolding content_root
  content_root-total [] = (hash_string framing.empty, refl)
  content_root-total (p ∷ ps) =
      reduce-total (length (p ∷ ps)) (hash_string (framing.leaf p)) (leaves ps)
        (omega (arith, length-leaves ps))

-- The loop over the levels ends for every list of payloads, and the root is made from their number
-- and the content root.
pub merkle_root-total :
    (hash_string : Text → Text) (framing : MerkleFraming) (payloads : List Text)
    → (content : Text) × (content_root hash_string framing payloads ≡ some content)
      × (merkle_root hash_string framing payloads
          ≡ some (hash_string (framing.root (length payloads) content)))
unfolding merkle_root
merkle_root-total hash_string framing payloads =
    let (content, e) = content_root-total hash_string framing payloads in
    (content, e, ap (finish hash_string framing (length payloads)) e)
