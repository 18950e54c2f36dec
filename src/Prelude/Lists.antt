-- ===== src/Prelude/Lists.antt =====
-- Lists measured and indexed by native numbers, tests over lists, and a stable sort.
use Prim.Native.Nat.{ℕ, zero, suc, ◌+◌}
use mathlib.Core.Path.{◌≡◌, refl, ap}
use mathlib.Core.Logic.{◌⊎◌, inl, inr}
use mathlib.Core.Bool.{Bool, true, false, ◌&&◌, ◌||◌}
use mathlib.Core.List.{List, [], ◌∷◌, ◌++◌, map, Memᴰ}
use mathlib.Core.Option.{Option, none, some}
use native.Mathlib.Omega.{arith}
use converge_audit.Prelude.Tests.{leb, if◌then◌else◌, Bool-cases}

module _ {ℓ} {A : Type ℓ} where
  abbrev pub length : List A → ℕ
  length [] = 0
  length (x ∷ xs) = suc (length xs)

  abbrev pub get_elem? : List A → ℕ → Option A
  get_elem? [] i = none
  get_elem? (x ∷ xs) zero = some x
  get_elem? (x ∷ xs) (suc i) = get_elem? xs i

  abbrev pub take : ℕ → List A → List A
  take zero xs = []
  take (suc n) [] = []
  take (suc n) (x ∷ xs) = x ∷ take n xs

  abbrev pub drop : ℕ → List A → List A
  drop zero xs = xs
  drop (suc n) [] = []
  drop (suc n) (x ∷ xs) = drop n xs

  -- `every`, `some` and `filter` of an array, by a Boolean test.
  abbrev pub all : (A → Bool) → List A → Bool
  all p [] = true
  all p (x ∷ xs) = p x && all p xs

  abbrev pub any : (A → Bool) → List A → Bool
  any p [] = false
  any p (x ∷ xs) = p x || any p xs

  abbrev pub filter : (A → Bool) → List A → List A
  filter p [] = []
  filter p (x ∷ xs) = let rest = filter p xs in if p x then x ∷ rest else rest

  abbrev pub find? : (A → Bool) → List A → Option A
  find? p [] = none
  find? p (x ∷ xs) = let rest = find? p xs in if p x then some x else rest

  abbrev pub get_last? : List A → Option A
  get_last? [] = none
  get_last? (x ∷ []) = some x
  get_last? (x ∷ y ∷ ys) = get_last? (y ∷ ys)

  -- `sort` by a numeric key is stable: an element goes before the later ones that are not smaller.
  unfoldable pub insert_by : (A → ℕ) → A → List A → List A
  insert_by key x [] = x ∷ []
  insert_by key x (y ∷ ys) =
      let rest = insert_by key x ys in if leb (key x) (key y) then x ∷ y ∷ ys else y ∷ rest

  unfoldable pub sort_by : (A → ℕ) → List A → List A
  unfolding insert_by
  sort_by key [] = []
  sort_by key (x ∷ xs) = insert_by key x (sort_by key xs)

module _ {ℓ} {A : Type ℓ} where
  pub length-append : (xs ys : List A) → length (xs ++ ys) ≡ length xs + length ys
  length-append [] ys = omega arith
  length-append (x ∷ xs) ys = omega (arith, length-append xs ys)

  pub all-mem : (p : A → Bool) (xs : List A) {a : A} → all p xs ≡ true → Memᴰ a xs → p a ≡ true
  all-mem p [] h m = elim m [ ]
  all-mem p (x ∷ xs) h (Memᴰ.head e) = rw e (ground arith)
  all-mem p (x ∷ xs) h (Memᴰ.tail m) = all-mem p xs (ground arith) m

  pub all-append :
      (p : A → Bool) (xs ys : List A) → all p xs ≡ true → all p ys ≡ true → all p (xs ++ ys) ≡ true
  all-append p [] ys hx hy = hy
  all-append p (x ∷ xs) ys hx hy = ground (arith, all-append p xs ys)

  all-insert_by :
      (p : A → Bool) (key : A → ℕ) (x : A) (ys : List A)
      → p x ≡ true
      → all p ys ≡ true
      → all p (insert_by key x ys) ≡ true
  unfolding insert_by
  all-insert_by p key x [] hx hy = ground arith
  all-insert_by p key x (y ∷ ys) hx hy = ground (arith, all-insert_by p key x ys)

  pub all-sort_by :
      (p : A → Bool) (key : A → ℕ) (xs : List A) → all p xs ≡ true → all p (sort_by key xs) ≡ true
  unfolding sort_by
  all-sort_by p key [] h = refl
  all-sort_by p key (x ∷ xs) h =
      all-insert_by p key x (sort_by key xs) (ground arith) (all-sort_by p key xs (ground arith))

  pub any-mem : (p : A → Bool) (xs : List A) {a : A} → any p xs ≡ false → Memᴰ a xs → p a ≡ false
  any-mem p [] h m = elim m [ ]
  any-mem p (x ∷ xs) h (Memᴰ.head e) = rw e (ground arith)
  any-mem p (x ∷ xs) h (Memᴰ.tail m) = any-mem p xs (ground arith) m

  pub mem-filter :
      (p : A → Bool) (xs : List A) {a : A} → p a ≡ true → Memᴰ a xs → Memᴰ a (filter p xs)
  mem-filter p [] h m = elim m [ ]
  mem-filter p (x ∷ xs) {a} h (Memᴰ.head e) = rw (← e, h) (Memᴰ.head refl)
  mem-filter p (x ∷ xs) h (Memᴰ.tail m) = elim (Bool-cases (p x)) [
    | inl e ↦ rw e (Memᴰ.tail (mem-filter p xs h m))
    | inr e ↦ rw e (mem-filter p xs h m)
  ]

  pub mem-append_left : (xs ys : List A) {a : A} → Memᴰ a xs → Memᴰ a (xs ++ ys)
  mem-append_left [] ys m = elim m [ ]
  mem-append_left (x ∷ xs) ys (Memᴰ.head e) = Memᴰ.head e
  mem-append_left (x ∷ xs) ys (Memᴰ.tail m) = Memᴰ.tail (mem-append_left xs ys m)

  pub mem-append-cases : (xs ys : List A) {a : A} → Memᴰ a (xs ++ ys) → Memᴰ a xs ⊎ Memᴰ a ys
  mem-append-cases [] ys m = inr m
  mem-append-cases (x ∷ xs) ys (Memᴰ.head e) = inl (Memᴰ.head e)
  mem-append-cases (x ∷ xs) ys (Memᴰ.tail m) = elim (mem-append-cases xs ys m) [
    | inl n ↦ inl (Memᴰ.tail n)
    | inr n ↦ inr n
  ]

  pub mem-append_right : (xs ys : List A) {a : A} → Memᴰ a ys → Memᴰ a (xs ++ ys)
  mem-append_right [] ys m = m
  mem-append_right (x ∷ xs) ys m = Memᴰ.tail (mem-append_right xs ys m)

  pub mem-insert_by_self : (key : A → ℕ) (x : A) (ys : List A) → Memᴰ x (insert_by key x ys)
  unfolding insert_by
  mem-insert_by_self key x [] = Memᴰ.head refl
  mem-insert_by_self key x (y ∷ ys) = elim (Bool-cases (leb (key x) (key y))) [
    | inl e ↦ rw e (Memᴰ.head refl)
    | inr e ↦ rw e (Memᴰ.tail (mem-insert_by_self key x ys))
  ]

  pub mem-insert_by :
      (key : A → ℕ) (x : A) (ys : List A) {a : A} → Memᴰ a ys → Memᴰ a (insert_by key x ys)
  unfolding insert_by
  mem-insert_by key x [] m = elim m [ ]
  mem-insert_by key x (y ∷ ys) (Memᴰ.head e) = elim (Bool-cases (leb (key x) (key y))) [
    | inl l ↦ rw l (Memᴰ.tail (Memᴰ.head e))
    | inr l ↦ rw l (Memᴰ.head e)
  ]
  mem-insert_by key x (y ∷ ys) (Memᴰ.tail m) = elim (Bool-cases (leb (key x) (key y))) [
    | inl l ↦ rw l (Memᴰ.tail (Memᴰ.tail m))
    | inr l ↦ rw l (Memᴰ.tail (mem-insert_by key x ys m))
  ]

  pub mem-sort_by : (key : A → ℕ) (xs : List A) {a : A} → Memᴰ a xs → Memᴰ a (sort_by key xs)
  unfolding sort_by
  mem-sort_by key [] m = elim m [ ]
  mem-sort_by key (x ∷ xs) (Memᴰ.head e) = rw e (mem-insert_by_self key x (sort_by key xs))
  mem-sort_by key (x ∷ xs) (Memᴰ.tail m) =
      mem-insert_by key x (sort_by key xs) (mem-sort_by key xs m)

  pub filter-mem :
      (p : A → Bool) (xs : List A) {a : A} → Memᴰ a (filter p xs) → Memᴰ a xs × (p a ≡ true)
  filter-mem p [] m = elim m [ ]
  filter-mem p (x ∷ xs) {a} m = elim (Bool-cases (p x)) [
    | inl e ↦ kept e (filter-mem p xs) (rw e at m)
    | inr e ↦ let rest = filter-mem p xs (rw e at m) in (Memᴰ.tail rest.0, rest.1)
  ]
    where
      kept :
          p x ≡ true
          → (Memᴰ a (filter p xs) → Memᴰ a xs × (p a ≡ true))
          → Memᴰ a (x ∷ filter p xs)
          → Memᴰ a (x ∷ xs) × (p a ≡ true)
      kept e ih (Memᴰ.head q) = (Memᴰ.head q, rw q e)
      kept e ih (Memᴰ.tail n) = let rest = ih n in (Memᴰ.tail rest.0, rest.1)

  pub find?-mem :
      (p : A → Bool) (xs : List A) {a : A} → find? p xs ≡ some a → Memᴰ a xs × (p a ≡ true)
  find?-mem p [] h = cc
  find?-mem p (x ∷ xs) {a} h = elim (Bool-cases (p x)) [
    | inl e ↦ found e (rw e at h)
    | inr e ↦ let rest = find?-mem p xs (rw e at h) in (Memᴰ.tail rest.0, rest.1)
  ]
    where
      found : p x ≡ true → some x ≡ some a → Memᴰ a (x ∷ xs) × (p a ≡ true)
      found e q = let q' : a ≡ x = cc in (Memᴰ.head q', rw q' e)

  pub get_last?-mem : (xs : List A) {a : A} → get_last? xs ≡ some a → Memᴰ a xs
  get_last?-mem [] h = cc
  get_last?-mem (x ∷ []) h = Memᴰ.head (cc)
  get_last?-mem (x ∷ y ∷ ys) h = Memᴰ.tail (get_last?-mem (y ∷ ys) h)

  insert_by-mem :
      (key : A → ℕ) (x : A) (ys : List A) {a : A}
      → Memᴰ a (insert_by key x ys)
      → (a ≡ x) ⊎ Memᴰ a ys
  unfolding insert_by
  insert_by-mem key x [] (Memᴰ.head e) = inl e
  insert_by-mem key x [] (Memᴰ.tail m) = elim m [ ]
  insert_by-mem key x (y ∷ ys) {a} m = elim (Bool-cases (leb (key x) (key y))) [
    | inl e ↦ front (rw e at m)
    | inr e ↦ back (insert_by-mem key x ys) (rw e at m)
  ]
    where
      front : Memᴰ a (x ∷ y ∷ ys) → (a ≡ x) ⊎ Memᴰ a (y ∷ ys)
      front (Memᴰ.head q) = inl q
      front (Memᴰ.tail n) = inr n

      back :
          (Memᴰ a (insert_by key x ys) → (a ≡ x) ⊎ Memᴰ a ys)
          → Memᴰ a (y ∷ insert_by key x ys)
          → (a ≡ x) ⊎ Memᴰ a (y ∷ ys)
      back ih (Memᴰ.head q) = inr (Memᴰ.head q)
      back ih (Memᴰ.tail n) = elim (ih n) [ inl q ↦ inl q | inr n' ↦ inr (Memᴰ.tail n') ]

  pub sort_by-mem : (key : A → ℕ) (xs : List A) {a : A} → Memᴰ a (sort_by key xs) → Memᴰ a xs
  unfolding sort_by
  sort_by-mem key [] m = m
  sort_by-mem key (x ∷ xs) m = elim (insert_by-mem key x (sort_by key xs) m) [
    | inl q ↦ Memᴰ.head q
    | inr n ↦ Memᴰ.tail (sort_by-mem key xs n)
  ]

module _ {ℓ κ} {A : Type ℓ} {B : Type κ} where
  pub mem-map : (f : A → B) (xs : List A) {a : A} → Memᴰ a xs → Memᴰ (f a) (map f xs)
  mem-map f [] m = elim m [ ]
  mem-map f (x ∷ xs) (Memᴰ.head e) = Memᴰ.head (ap f e)
  mem-map f (x ∷ xs) (Memᴰ.tail m) = Memᴰ.tail (mem-map f xs m)
