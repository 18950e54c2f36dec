-- ===== src/DigestPlans/MerkleBinding.antt =====
-- A Merkle root binds the payloads (examples/player-local-runtime/merkle-digest.ts).
use converge_audit.Prelude.{
  ℕ, zero, suc, ◌≡◌, refl, sym, ap, subst, ◌∙◌, Option, none, some, List, [], ◌∷◌, ◌++◌, length,
  map, Memᴰ, mem-append_left, mem-append_right, arith,
}
use converge_audit.Prelude.Text.{Text}
use converge_audit.DigestPlans.Merkle.{
  MerkleFraming, next_level, reduce, leaves, content_root, merkle_root, merkle_root-total,
}

module _ (hash_string : Text → Text) (framing : MerkleFraming) where
  -- The texts hashed for one level, and for all of them.
  abbrev node_texts : List Text → List Text
  node_texts [] = []
  node_texts (x ∷ []) = framing.node x x ∷ []
  node_texts (x ∷ y ∷ rest) = framing.node x y ∷ node_texts rest

  abbrev level_texts : ℕ → List Text → List Text
  level_texts fuel [] = []
  level_texts fuel (x ∷ []) = []
  level_texts zero (x ∷ y ∷ rest) = []
  level_texts (suc fuel) (x ∷ y ∷ rest) =
      node_texts (x ∷ y ∷ rest) ++ level_texts fuel (next_level hash_string framing (x ∷ y ∷ rest))

  abbrev root_texts : ℕ → Option Text → List Text
  root_texts count none = []
  root_texts count (some content) = framing.root count content ∷ []

  abbrev content_texts : List Text → List Text
  content_texts [] = framing.empty ∷ []
  content_texts (p ∷ ps) =
      map framing.leaf (p ∷ ps)
      ++ level_texts (length (p ∷ ps)) (leaves hash_string framing (p ∷ ps))

  -- All texts hashed for the root of the payloads.
  abbrev pub hashed_texts : List Text → List Text
  hashed_texts payloads =
      root_texts (length payloads) (content_root hash_string framing payloads)
      ++ content_texts payloads

  -- The hash tells the texts of two lists apart.
  abbrev pub Apart : List Text → List Text → Type 0
  Apart ks bs = (a b : Text) → Memᴰ a ks → Memᴰ b bs → hash_string a ≡ hash_string b → a ≡ b

  -- The framing of the program's texts is unambiguous.
  pub record IsUnambiguous : Type 0 where
    pub leaf_injective : (p q : Text) → framing.leaf p ≡ framing.leaf q → p ≡ q
    pub node_injective : (a b c d : Text) → framing.node a b ≡ framing.node c d → (a ≡ c) × (b ≡ d)
    pub root_injective :
        (m n : ℕ) (c d : Text) → framing.root m c ≡ framing.root n d → (m ≡ n) × (c ≡ d)

  next_level-map :
      (xs : List Text) → next_level hash_string framing xs ≡ map hash_string (node_texts xs)
  unfolding next_level
  next_level-map [] = refl
  next_level-map (x ∷ []) = refl
  next_level-map (x ∷ y ∷ rest) =
      ap (λ (l : List Text). hash_string (framing.node x y) ∷ l) (next_level-map rest)

  leaves-map :
      (ps : List Text) → leaves hash_string framing ps ≡ map hash_string (map framing.leaf ps)
  leaves-map [] = refl
  leaves-map (p ∷ ps) = ap (λ (l : List Text). hash_string (framing.leaf p) ∷ l) (leaves-map ps)

  Apart-map : (ks bs : List Text) → Apart ks bs → map hash_string ks ≡ map hash_string bs → ks ≡ bs
  Apart-map [] [] apart e = refl
  Apart-map [] (b ∷ bs) apart e = absurd (cc)
  Apart-map (a ∷ ks) [] apart e = absurd (cc)
  Apart-map (a ∷ ks) (b ∷ bs) apart e =
      let first : hash_string a ≡ hash_string b = cc in
      let rest : map hash_string ks ≡ map hash_string bs = cc in
      let same = apart a b (Memᴰ.head refl) (Memᴰ.head refl) first in
      let others = Apart-map ks bs (λ c d mc md. apart c d (Memᴰ.tail mc) (Memᴰ.tail md)) rest in cc

  root_hashed :
      (ps : List Text) (c : Text)
      → content_root hash_string framing ps ≡ some c
      → Memᴰ (framing.root (length ps) c) (hashed_texts ps)
  root_hashed ps c e =
      subst (λ o. Memᴰ (framing.root (length ps) c) (root_texts (length ps) o ++ content_texts ps))
        (sym e) (Memᴰ.head refl)

  Apart-left : (ks bs cs ds : List Text) → Apart (ks ++ cs) (bs ++ ds) → Apart ks bs
  Apart-left ks bs cs ds apart a b ma mb =
      apart a b (mem-append_left ks cs ma) (mem-append_left bs ds mb)

  Apart-right : (ks bs cs ds : List Text) → Apart (ks ++ cs) (bs ++ ds) → Apart cs ds
  Apart-right ks bs cs ds apart a b ma mb =
      apart a b (mem-append_right ks cs ma) (mem-append_right bs ds mb)

  module _ (u : IsUnambiguous) where
    map_leaf_injective : (ps qs : List Text) → map framing.leaf ps ≡ map framing.leaf qs → ps ≡ qs
    map_leaf_injective [] [] e = refl
    map_leaf_injective [] (q ∷ qs) e = absurd (cc)
    map_leaf_injective (p ∷ ps) [] e = absurd (cc)
    map_leaf_injective (p ∷ ps) (q ∷ qs) e =
        let first : framing.leaf p ≡ framing.leaf q = cc in
        let rest : map framing.leaf ps ≡ map framing.leaf qs = cc in
        let same = u.leaf_injective p q first in let others = map_leaf_injective ps qs rest in cc

    node_texts_injective :
        (xs ys : List Text) → length xs ≡ length ys → node_texts xs ≡ node_texts ys → xs ≡ ys
    node_texts_injective [] [] n e = refl
    node_texts_injective [] (y ∷ ys) n e = absurd (omega (arith, n))
    node_texts_injective (x ∷ xs) [] n e = absurd (omega (arith, n))
    node_texts_injective (x ∷ []) (y ∷ []) n e = let same = u.node_injective x x y y (cc) in cc
    node_texts_injective (x ∷ []) (y ∷ z ∷ ys) n e = absurd (omega (arith, n))
    node_texts_injective (x ∷ z ∷ xs) (y ∷ []) n e = absurd (omega (arith, n))
    node_texts_injective (x ∷ z ∷ xs) (y ∷ w ∷ ys) n e =
        let first : framing.node x z ≡ framing.node y w = cc in
        let rest : node_texts xs ≡ node_texts ys = cc in
        let same = u.node_injective x z y w first in
        let others = node_texts_injective xs ys (omega (arith, n)) rest in cc

    length-next_level :
        (xs ys : List Text)
        → length xs ≡ length ys
        → length (next_level hash_string framing xs) ≡ length (next_level hash_string framing ys)
    unfolding next_level
    length-next_level [] [] n = refl
    length-next_level [] (y ∷ ys) n = absurd (omega (arith, n))
    length-next_level (x ∷ xs) [] n = absurd (omega (arith, n))
    length-next_level (x ∷ []) (y ∷ []) n = refl
    length-next_level (x ∷ []) (y ∷ z ∷ ys) n = absurd (omega (arith, n))
    length-next_level (x ∷ z ∷ xs) (y ∷ []) n = absurd (omega (arith, n))
    length-next_level (x ∷ z ∷ xs) (y ∷ w ∷ ys) n =
        ap suc (length-next_level xs ys (omega (arith, n)))

    next_level_injective :
        (xs ys : List Text)
        → length xs ≡ length ys
        → Apart (node_texts xs) (node_texts ys)
        → next_level hash_string framing xs ≡ next_level hash_string framing ys
        → xs ≡ ys
    next_level_injective xs ys n apart e = node_texts_injective xs ys n (
        Apart-map (node_texts xs) (node_texts ys) apart
          (sym (next_level-map xs) ∙ e ∙ next_level-map ys))

    reduce_injective :
        (fuel : ℕ) (xs ys : List Text) (c : Text)
        → length xs ≡ length ys
        → Apart (level_texts fuel xs) (level_texts fuel ys)
        → reduce hash_string framing fuel xs ≡ some c
        → reduce hash_string framing fuel ys ≡ some c
        → xs ≡ ys
    unfolding reduce
    reduce_injective fuel [] [] c n apart p q = refl
    reduce_injective fuel [] (y ∷ ys) c n apart p q = absurd (omega (arith, n))
    reduce_injective fuel (x ∷ xs) [] c n apart p q = absurd (omega (arith, n))
    reduce_injective fuel (x ∷ []) (y ∷ []) c n apart p q = cc
    reduce_injective fuel (x ∷ []) (y ∷ z ∷ ys) c n apart p q = absurd (omega (arith, n))
    reduce_injective fuel (x ∷ z ∷ xs) (y ∷ []) c n apart p q = absurd (omega (arith, n))
    reduce_injective zero (x ∷ z ∷ xs) (y ∷ w ∷ ys) c n apart p q = absurd (cc)
    reduce_injective (suc fuel) (x ∷ z ∷ xs) (y ∷ w ∷ ys) c n apart p q =
        let a = x ∷ z ∷ xs in
        let b = y ∷ w ∷ ys in
        let above = level_texts fuel (next_level hash_string framing a) in
        let above' = level_texts fuel (next_level hash_string framing b) in
        let higher =
          reduce_injective fuel (next_level hash_string framing a)
            (next_level hash_string framing b) c (length-next_level a b n)
            (Apart-right (node_texts a) (node_texts b) above above' apart) p q in
        next_level_injective a b n (Apart-left (node_texts a) (node_texts b) above above' apart)
          higher

    length-leaves :
        (ps qs : List Text)
        → length ps ≡ length qs
        → length (leaves hash_string framing ps) ≡ length (leaves hash_string framing qs)
    length-leaves [] [] n = refl
    length-leaves [] (q ∷ qs) n = absurd (omega (arith, n))
    length-leaves (p ∷ ps) [] n = absurd (omega (arith, n))
    length-leaves (p ∷ ps) (q ∷ qs) n = ap suc (length-leaves ps qs (omega (arith, n)))

    content_injective :
        (fuel : ℕ) (ps qs : List Text) (c : Text)
        → length ps ≡ length qs
        → Apart
            (map framing.leaf ps ++ level_texts fuel (leaves hash_string framing ps))
            (map framing.leaf qs ++ level_texts fuel (leaves hash_string framing qs))
        → reduce hash_string framing fuel (leaves hash_string framing ps) ≡ some c
        → reduce hash_string framing fuel (leaves hash_string framing qs) ≡ some c
        → ps ≡ qs
    content_injective fuel ps qs c n apart p q =
        let l = level_texts fuel (leaves hash_string framing ps) in
        let l' = level_texts fuel (leaves hash_string framing qs) in
        let same =
          reduce_injective fuel (leaves hash_string framing ps) (leaves hash_string framing qs) c
            (length-leaves ps qs n)
            (Apart-right (map framing.leaf ps) (map framing.leaf qs) l l' apart) p q in
        map_leaf_injective ps qs (
          Apart-map (map framing.leaf ps) (map framing.leaf qs)
            (Apart-left (map framing.leaf ps) (map framing.leaf qs) l l' apart)
            (sym (leaves-map ps) ∙ same ∙ leaves-map qs))

    content_root_injective :
        (ps qs : List Text) (c : Text)
        → length ps ≡ length qs
        → Apart (content_texts ps) (content_texts qs)
        → content_root hash_string framing ps ≡ some c
        → content_root hash_string framing qs ≡ some c
        → ps ≡ qs
    unfolding content_root
    content_root_injective [] [] c n apart p q = refl
    content_root_injective [] (y ∷ ys) c n apart p q = absurd (omega (arith, n))
    content_root_injective (x ∷ xs) [] c n apart p q = absurd (omega (arith, n))
    content_root_injective (x ∷ xs) (y ∷ ys) c n apart p q =
        content_injective (length (x ∷ xs)) (x ∷ xs) (y ∷ ys) c n
          (subst
            (λ f.
              Apart (content_texts (x ∷ xs))
                (map framing.leaf (y ∷ ys) ++ level_texts f (leaves hash_string framing (y ∷ ys))))
            (sym n) apart)
          p
          (subst (λ f. reduce hash_string framing f (leaves hash_string framing (y ∷ ys)) ≡ some c)
            (sym n) q)

-- If a framing is unambiguous, and the hash tells apart the texts that are hashed for the roots of
-- two lists of payloads, equal roots come from equal lists: of the same length, with the same
-- payloads in the same order.
pub merkle_root_binds :
    (hash_string : Text → Text) (framing : MerkleFraming) (ps qs : List Text)
    → IsUnambiguous hash_string framing
    → Apart hash_string framing
        (hashed_texts hash_string framing ps)
        (hashed_texts hash_string framing qs)
    → merkle_root hash_string framing ps ≡ merkle_root hash_string framing qs
    → ps ≡ qs
merkle_root_binds hash_string framing ps qs u apart e =
    let (c, made, root) = merkle_root-total hash_string framing ps in
    let (d, made', root') = merkle_root-total hash_string framing qs in
    let hashes : hash_string (framing.root (length ps) c)
        ≡ hash_string (framing.root (length qs) d) =
      cc in
    let roots =
      apart (framing.root (length ps) c) (framing.root (length qs) d)
        (root_hashed hash_string framing ps c made) (root_hashed hash_string framing qs d made')
        hashes in
    let (counts, contents) = u.root_injective (length ps) (length qs) c d roots in
    content_root_injective hash_string framing u ps qs c counts
      (Apart-right hash_string framing
        (root_texts hash_string framing (length ps) (content_root hash_string framing ps))
        (root_texts hash_string framing (length qs) (content_root hash_string framing qs))
        (content_texts hash_string framing ps) (content_texts hash_string framing qs) apart)
      made (made' ∙ ap some (sym contents))
