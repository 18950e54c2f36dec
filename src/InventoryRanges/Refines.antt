-- ===== src/InventoryRanges/Refines.antt =====
-- The rows are the maximal runs of a set of ordinals, and `add` adds to that set
-- (examples/cf-game-audit/game/encounter/inventory-ranges.ts).
use converge_audit.Prelude.{
  ℕ, ◌+◌, ◌≤◌, ◌<◌, ◌≡◌, ◌↔◌, refl, ap, subst, ◌⊎◌, inl, inr, Bool, true, false, ◌&&◌, ◌||◌, Option,
  none, some, List, [], ◌∷◌, Memᴰ, any, filter, ltb, ◌==◌, if◌then◌else◌, arith, mem-filter,
  filter-mem, Bool-cases, ok, err,
}
use converge_audit.Prelude.Text.{max_safe_integer}
use converge_audit.InventoryRanges.Store.{
  InventoryEmptyRange, already_retired, range_valid, parse, highest, starting_at, reaches, adjacent,
  keeps, first_or, last_or, cleared, joined, add,
}
use converge_audit.InventoryRanges.Runs.{
  Apart, AreRuns, no_runs, and_run, Retired, run_valid, runs-Apart, mem_cases, Highest,
  highest-Highest, Starting, starting_at-Starting,
}

-- The row that ends where the ordinal starts, if there is one.
abbrev LeftOf : ℕ → List InventoryEmptyRange → Option InventoryEmptyRange → Type 0
LeftOf o rs none = (x : InventoryEmptyRange) → Memᴰ x rs → x.first ≤ o → x.last + 1 < o
LeftOf o rs (some l) = Memᴰ l rs × (l.last + 1 ≡ o)

module _ (o : ℕ) (rs : List InventoryEmptyRange) (w : AreRuns rs) where
  adjacent-LeftOf :
      (before : Option InventoryEmptyRange)
      → Highest o rs before
      → reaches o before ≡ false
      → LeftOf o rs (adjacent o before)
  adjacent-LeftOf none h f = λ x m le. absurd (ground (arith, h x m, le))
  adjacent-LeftOf (some q) (m, below, best) f = elim (Bool-cases (q.last + 1 == o)) [
    | inl t ↦ rw t (m, ground (arith, t))
    | inr t ↦ rw t (λ x n le. elim (runs-Apart x q rs w n m) [
      | inl e ↦ ground (arith, ap InventoryEmptyRange.last e, f, t)
      | inr (inl before_q) ↦ ground (arith, before_q, below)
      | inr (inr after_q) ↦ elim (best x n) [
        | inl far ↦ absurd (ground (arith, far, le))
        | inr near ↦ absurd (ground (arith, near, after_q, run_valid q rs w m))
      ]
    ])
  ]

  -- The ordinal is in no row.
  free :
      (before : Option InventoryEmptyRange)
      → Highest o rs before
      → reaches o before ≡ false
      → (x : InventoryEmptyRange) → Memᴰ x rs
      → (o < x.first) ⊎ (x.last < o)
  free none h f x m = inl (h x m)
  free (some q) (m, below, best) f x n = elim (runs-Apart x q rs w n m) [
    | inl e ↦ inr (ground (arith, ap InventoryEmptyRange.last e, f))
    | inr (inl before_q) ↦ inr (ground (arith, before_q, below))
    | inr (inr after_q) ↦ elim (best x n) [
      | inl far ↦ inl far
      | inr near ↦ absurd (ground (arith, near, after_q, run_valid q rs w m))
    ]
  ]

  module _ (unretired : (x : InventoryEmptyRange) → Memᴰ x rs → (o < x.first) ⊎ (x.last < o)) where
    apart_left :
        (left right : Option InventoryEmptyRange) (x : InventoryEmptyRange)
        → LeftOf o rs left
        → Memᴰ x rs
        → keeps left x ≡ true
        → x.last < o
        → x.last + 1 < first_or o left
    apart_left none right x l m k lt = l x m (ground (arith, lt, run_valid x rs w m))
    apart_left (some q) right x (n, e) m k lt = elim (runs-Apart x q rs w m n) [
      | inl same ↦ absurd (ground (arith, ap InventoryEmptyRange.first same, k))
      | inr (inl before_q) ↦ before_q
      | inr (inr after_q) ↦ absurd (ground (arith, after_q, e, lt, run_valid x rs w m))
    ]

    apart_right :
        (right : Option InventoryEmptyRange) (x : InventoryEmptyRange)
        → Starting (o + 1) rs right
        → Memᴰ x rs
        → keeps right x ≡ true
        → o < x.first
        → last_or o right + 1 < x.first
    apart_right none x r m k lt = elim (Bool-cases (x.first == o + 1)) [
      | inl t ↦ absurd (r x m (ground (arith, t)))
      | inr t ↦ ground (arith, t, lt)
    ]
    apart_right (some q) x (n, e) m k lt = elim (runs-Apart x q rs w m n) [
      | inl same ↦ absurd (ground (arith, ap InventoryEmptyRange.first same, k))
      | inr (inl before_q) ↦ absurd (ground (arith, before_q, e, lt, run_valid x rs w m))
      | inr (inr after_q) ↦ after_q
    ]

    cleared-Apart :
        (left right : Option InventoryEmptyRange) (x : InventoryEmptyRange)
        → LeftOf o rs left
        → Starting (o + 1) rs right
        → Memᴰ x (cleared left right rs)
        → Apart x (joined o left right)
    cleared-Apart left right x l r m =
        let (n, k) = filter-mem (λ y. keeps left y && keeps right y) rs m in
        elim (unretired x n) [
          | inl far ↦ inr (apart_right right x r n (ground (arith, k)) far)
          | inr near ↦ inl (apart_left left right x l n (ground (arith, k)) near)
        ]

filter-AreRuns :
    (p : InventoryEmptyRange → Bool) (rs : List InventoryEmptyRange)
    → AreRuns rs
    → AreRuns (filter p rs)
filter-AreRuns p [] no_runs = no_runs
filter-AreRuns p (r ∷ rs) (and_run v a w) = elim (Bool-cases (p r)) [
  | inl t ↦ rw t (and_run v (λ x m. a x (filter-mem p rs m).0) (filter-AreRuns p rs w))
  | inr t ↦ rw t (filter-AreRuns p rs w)
]

joined_valid :
    (o : ℕ) (rs : List InventoryEmptyRange) (left right : Option InventoryEmptyRange)
    → AreRuns rs
    → 1 ≤ o
    → o ≤ max_safe_integer
    → LeftOf o rs left
    → Starting (o + 1) rs right
    → (range_valid (joined o left right) ≡ true) × (first_or o left ≤ o) × (o ≤ last_or o right)
joined_valid o rs none none w lo hi l r = ground (arith, lo, hi)
joined_valid o rs (some a) none w lo hi (m, e) r = ground (arith, lo, hi, e, run_valid a rs w m)
joined_valid o rs none (some b) w lo hi l (m, e) = ground (arith, lo, hi, e, run_valid b rs w m)
joined_valid o rs (some a) (some b) w lo hi (m, e) (n, f) =
    ground (arith, lo, hi, e, f, run_valid a rs w m, run_valid b rs w n)

module _ (o : ℕ) (rs : List InventoryEmptyRange) (w : AreRuns rs) where
  -- The new row has the ordinal and its neighbours, and no more.
  joined_set :
      (left right : Option InventoryEmptyRange) (n : ℕ)
      → LeftOf o rs left
      → Starting (o + 1) rs right
      → first_or o left ≤ n
      → n ≤ last_or o right
      → Retired n rs ⊎ (n ≡ o)
  joined_set none none n l r lo hi = inr (omega (arith, lo, hi))
  joined_set none (some b) n l (m, e) lo hi = elim (Bool-cases (n == o)) [
    | inl t ↦ inr (ground (arith, t))
    | inr t ↦ inl (b, m, ground (arith, t, lo, e), hi)
  ]
  joined_set (some a) none n (m, e) r lo hi = elim (Bool-cases (n == o)) [
    | inl t ↦ inr (ground (arith, t))
    | inr t ↦ inl (a, m, lo, ground (arith, t, hi, e))
  ]
  joined_set (some a) (some b) n (m, e) (k, f) lo hi = elim (Bool-cases (ltb n o)) [
    | inl t ↦ inl (a, m, lo, ground (arith, t, e))
    | inr t ↦ elim (Bool-cases (n == o)) [
      | inl u ↦ inr (ground (arith, u))
      | inr u ↦ inl (b, k, ground (arith, t, u, f), hi)
    ]
  ]

  left_kept :
      (left : Option InventoryEmptyRange) (n : ℕ) (x : InventoryEmptyRange)
      → LeftOf o rs left
      → Memᴰ x rs
      → keeps left x ≡ false
      → x.first ≤ n
      → n ≤ x.last
      → (first_or o left ≤ n) × (n ≤ o)
  left_kept none n x l m k lo hi = absurd (cc)
  left_kept (some a) n x (p, e) m k lo hi = elim (runs-Apart x a rs w m p) [
    | inl same ↦ (
      ground (arith, ap InventoryEmptyRange.first same, lo),
      ground (arith, ap InventoryEmptyRange.last same, hi, e),
    )
    | inr (inl before_a) ↦ absurd (ground (arith, before_a, k, run_valid x rs w m))
    | inr (inr after_a) ↦ absurd (ground (arith, after_a, k, run_valid a rs w p))
  ]

  right_kept :
      (right : Option InventoryEmptyRange) (n : ℕ) (x : InventoryEmptyRange)
      → Starting (o + 1) rs right
      → Memᴰ x rs
      → keeps right x ≡ false
      → x.first ≤ n
      → n ≤ x.last
      → (o ≤ n) × (n ≤ last_or o right)
  right_kept none n x r m k lo hi = absurd (cc)
  right_kept (some b) n x (p, e) m k lo hi = elim (runs-Apart x b rs w m p) [
    | inl same ↦ (
      ground (arith, ap InventoryEmptyRange.first same, lo, e),
      ground (arith, ap InventoryEmptyRange.last same, hi),
    )
    | inr (inl before_b) ↦ absurd (ground (arith, before_b, k, run_valid x rs w m))
    | inr (inr after_b) ↦ absurd (ground (arith, after_b, k, run_valid b rs w p))
  ]

  added_set :
      (left right : Option InventoryEmptyRange) (n : ℕ)
      → LeftOf o rs left
      → Starting (o + 1) rs right
      → first_or o left ≤ o
      → o ≤ last_or o right
      → Retired n (joined o left right ∷ cleared left right rs) ↔ (Retired n rs ⊎ (n ≡ o))
  added_set left right n l r below above = (out, back)
    where
      out : Retired n (joined o left right ∷ cleared left right rs) → Retired n rs ⊎ (n ≡ o)
      out (x, m, lo, hi) = elim (mem_cases x (joined o left right) (cleared left right rs) m) [
        | inl e ↦
            joined_set left right n l r (subst (λ k. k ≤ n) (ap InventoryEmptyRange.first e) lo)
              (subst (λ k. n ≤ k) (ap InventoryEmptyRange.last e) hi)
        | inr k ↦ inl (x, (filter-mem (λ y. keeps left y && keeps right y) rs k).0, lo, hi)
      ]

      of_new :
          first_or o left ≤ n
          → n ≤ last_or o right
          → Retired n (joined o left right ∷ cleared left right rs)
      of_new lo hi = (joined o left right, Memᴰ.head refl, lo, hi)

      of_row :
          (x : InventoryEmptyRange)
          → Memᴰ x rs
          → x.first ≤ n
          → n ≤ x.last
          → Retired n (joined o left right ∷ cleared left right rs)
      of_row x m lo hi = elim (Bool-cases (keeps left x)) [
        | inr k ↦ let (a, b) = left_kept left n x l m k lo hi in of_new a (omega (arith, b, above))
        | inl k ↦ elim (Bool-cases (keeps right x)) [
          | inr j ↦
              let (a, b) = right_kept right n x r m j lo hi in of_new (omega (arith, a, below)) b
          | inl j ↦ (
            x,
            Memᴰ.tail (mem-filter (λ y. keeps left y && keeps right y) rs (ground (arith, k, j)) m),
            lo,
            hi,
          )
        ]
      ]

      back : Retired n rs ⊎ (n ≡ o) → Retired n (joined o left right ∷ cleared left right rs)
      back (inl (x, m, lo, hi)) = of_row x m lo hi
      back (inr e) = of_new (omega (arith, e, below)) (omega (arith, e, above))

no_conflict :
    (new : InventoryEmptyRange) (rs : List InventoryEmptyRange)
    → range_valid new ≡ true
    → AreRuns rs
    → ((x : InventoryEmptyRange) → Memᴰ x rs → Apart x new)
    → any (λ (r : InventoryEmptyRange). r.first == new.first || r.last == new.last) rs ≡ false
no_conflict new [] v no_runs a = refl
no_conflict new (r ∷ rs) v (and_run u b w) a =
    let rest = no_conflict new rs v w (λ x m. a x (Memᴰ.tail m)) in
    elim (a r (Memᴰ.head refl)) [
      | inl before_new ↦ ground (arith, before_new, v, u, rest)
      | inr after_new ↦ ground (arith, after_new, v, u, rest)
    ]

-- What `add` finds to the right.
abbrev right_of : ℕ → List InventoryEmptyRange → Option InventoryEmptyRange
right_of o rs = if ltb o max_safe_integer then starting_at (o + 1) rs else none

right_of-Starting :
    (o : ℕ) (rs : List InventoryEmptyRange) → AreRuns rs → Starting (o + 1) rs (right_of o rs)
right_of-Starting o rs w = elim (Bool-cases (ltb o max_safe_integer)) [
  | inl t ↦ rw t (starting_at-Starting (o + 1) rs)
  | inr t ↦ rw t (λ x m e. ground (arith, t, e, run_valid x rs w m))
]

Highest-valid :
    (o : ℕ) (rs : List InventoryEmptyRange) (found : Option InventoryEmptyRange)
    → AreRuns rs
    → Highest o rs found
    → parse found ≡ ok found
Highest-valid o rs none w h = refl
Highest-valid o rs (some q) w (m, below, best) = rw (run_valid q rs w m) refl

Starting-valid :
    (o : ℕ) (rs : List InventoryEmptyRange) (found : Option InventoryEmptyRange)
    → AreRuns rs
    → Starting o rs found
    → parse found ≡ ok found
Starting-valid o rs none w h = refl
Starting-valid o rs (some q) w (m, e) = rw (run_valid q rs w m) refl

right_parsed :
    (o : ℕ) (rs : List InventoryEmptyRange)
    → parse (right_of o rs) ≡ ok (right_of o rs)
    → (if ltb o max_safe_integer then parse (starting_at (o + 1) rs) else ok none)
      ≡ ok (right_of o rs)
right_parsed o rs h = elim (Bool-cases (ltb o max_safe_integer)) [
  | inl t ↦ rw t (rw t at h)
  | inr t ↦ rw t refl
]

reached-Retired :
    (o : ℕ) (rs : List InventoryEmptyRange) (found : Option InventoryEmptyRange)
    → Highest o rs found
    → reaches o found ≡ true
    → Retired o rs
reached-Retired o rs none h r = absurd (cc)
reached-Retired o rs (some q) (m, below, best) r = (q, m, below, ground (arith, r))

-- The set of retired ordinals to which the rows of a table of maximal runs amount grows by the
-- ordinal that is added, a positive safe integer, and the rows are its maximal runs again; an
-- ordinal that is in the set is refused. No added ordinal meets a conflict of keys.
pub add_refines :
    (o : ℕ) (rs : List InventoryEmptyRange)
    → AreRuns rs
    → 1 ≤ o
    → o ≤ max_safe_integer
    → (Retired o rs × (add o rs ≡ err already_retired))
      ⊎ ((new : List InventoryEmptyRange) × (add o rs ≡ ok new)
          × AreRuns new
          × ((n : ℕ) → Retired n new ↔ (Retired n rs ⊎ (n ≡ o))))
unfolding add
add_refines o rs w lo hi =
    let h = highest-Highest o rs in
    let found = Highest-valid o rs (highest o rs) w h in
    let right = right_of o rs in
    let r = right_of-Starting o rs w in
    let right_found = right_parsed o rs (Starting-valid (o + 1) rs right w r) in
    elim (Bool-cases (reaches o (highest o rs))) [
      | inl t ↦ inl (reached-Retired o rs (highest o rs) h t, ground (arith, found, t, lo, hi))
      | inr t ↦
          let left = adjacent o (highest o rs) in
          let l = adjacent-LeftOf o rs w (highest o rs) h t in
          let unretired = free o rs w (highest o rs) h t in
          let (valid, below, above) = joined_valid o rs left right w lo hi l r in
          let apart : (x : InventoryEmptyRange)
              → Memᴰ x (cleared left right rs)
              → Apart x (joined o left right) =
            λ x m. cleared-Apart o rs w unretired left right x l r m in
          let kept = filter-AreRuns (λ y. keeps left y && keeps right y) rs w in
          let conflict =
            no_conflict (joined o left right) (cleared left right rs) valid kept apart in
          inr (
            joined o left right ∷ cleared left right rs,
            ground (arith, found, right_found, t, lo, hi, conflict),
            and_run valid apart kept,
            λ n. added_set o rs w left right n l r below above,
          )
    ]
