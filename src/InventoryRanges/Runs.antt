-- ===== src/InventoryRanges/Runs.antt =====
-- Rows that are the maximal runs of a set of ordinals, and what the queries find in them
-- (examples/cf-game-audit/game/encounter/inventory-ranges.ts).
use converge_audit.Prelude.{
  ℕ, ◌+◌, ◌≤◌, ◌<◌, ◌≡◌, refl, sym, ap, subst, ◌∙◌, ◌⊎◌, inl, inr, true, false, Option, none, some,
  List, [], ◌∷◌, Memᴰ, ltb, leb, ◌==◌, arith, Bool-cases,
}
use converge_audit.InventoryRanges.Store.{
  InventoryEmptyRange, range_valid, highest, later, starting_at,
}

abbrev pub Apart : InventoryEmptyRange → InventoryEmptyRange → Type 0
Apart a b = (a.last + 1 < b.first) ⊎ (b.last + 1 < a.first)

-- No row reaches or touches another.
pub data AreRuns : List InventoryEmptyRange → Type 0 where
  no_runs : AreRuns []
  and_run :
      {r : InventoryEmptyRange} {rs : List InventoryEmptyRange}
      → range_valid r ≡ true
      → ((x : InventoryEmptyRange) → Memᴰ x rs → Apart x r)
      → AreRuns rs
      → AreRuns (r ∷ rs)

-- The set of ordinals that the rows stand for.
abbrev pub Retired : ℕ → List InventoryEmptyRange → Type 0
Retired n rs = (r : InventoryEmptyRange) × Memᴰ r rs × (r.first ≤ n) × (n ≤ r.last)

pub run_valid :
    (x : InventoryEmptyRange) (rs : List InventoryEmptyRange)
    → AreRuns rs
    → Memᴰ x rs
    → range_valid x ≡ true
run_valid x [] w m = elim m [ ]
run_valid x (r ∷ rs) (and_run v a w) (Memᴰ.head e) = ap range_valid e ∙ v
run_valid x (r ∷ rs) (and_run v a w) (Memᴰ.tail m) = run_valid x rs w m

swap-Apart : (x y : InventoryEmptyRange) → Apart x y → Apart y x
swap-Apart x y (inl h) = inr h
swap-Apart x y (inr h) = inl h

pub runs-Apart :
    (x y : InventoryEmptyRange) (rs : List InventoryEmptyRange)
    → AreRuns rs
    → Memᴰ x rs
    → Memᴰ y rs
    → (x ≡ y) ⊎ Apart x y
runs-Apart x y [] w m n = elim m [ ]
runs-Apart x y (r ∷ rs) (and_run v a w) (Memᴰ.head e) (Memᴰ.head f) = inl (e ∙ sym f)
runs-Apart x y (r ∷ rs) (and_run v a w) (Memᴰ.head e) (Memᴰ.tail m) =
    inr (subst (λ k. Apart k y) (sym e) (swap-Apart y r (a y m)))
runs-Apart x y (r ∷ rs) (and_run v a w) (Memᴰ.tail m) (Memᴰ.head f) =
    inr (subst (Apart x) (sym f) (a x m))
runs-Apart x y (r ∷ rs) (and_run v a w) (Memᴰ.tail m) (Memᴰ.tail n) = runs-Apart x y rs w m n

pub mem_cases :
    (x r : InventoryEmptyRange) (rs : List InventoryEmptyRange)
    → Memᴰ x (r ∷ rs)
    → (x ≡ r) ⊎ Memᴰ x rs
mem_cases x r rs (Memᴰ.head e) = inl e
mem_cases x r rs (Memᴰ.tail m) = inr m

-- What the first query finds.
abbrev pub Highest : ℕ → List InventoryEmptyRange → Option InventoryEmptyRange → Type 0
Highest o rs none = (x : InventoryEmptyRange) → Memᴰ x rs → o < x.first
Highest o rs (some q) =
    Memᴰ q rs
    × (q.first ≤ o)
    × ((x : InventoryEmptyRange) → Memᴰ x rs → (o < x.first) ⊎ (x.first ≤ q.first))

pub highest-Highest : (o : ℕ) (rs : List InventoryEmptyRange) → Highest o rs (highest o rs)
unfolding highest
highest-Highest o [] = λ x m. elim m [ ]
highest-Highest o (r ∷ rs) = elim (Bool-cases (leb r.first o)) [
  | inl t ↦ rw t (with_head r (highest o rs) (ground (arith, t)) (highest-Highest o rs))
  | inr t ↦ rw t (without_head r (highest o rs) (ground (arith, t)) (highest-Highest o rs))
]
  where
    with_head :
        (r : InventoryEmptyRange) (best : Option InventoryEmptyRange)
        → r.first ≤ o
        → Highest o rs best
        → Highest o (r ∷ rs) (later r best)
    with_head r none le h = (
      Memᴰ.head refl,
      le,
      λ x m. elim (mem_cases x r rs m) [
        | inl e ↦ inr (ground (arith, ap InventoryEmptyRange.first e))
        | inr n ↦ inl (h x n)
      ],
    )
    with_head r (some q) le (m, below, best) = elim (Bool-cases (ltb q.first r.first)) [
      | inl u ↦ rw u (
        Memᴰ.head refl,
        le,
        λ x n. elim (mem_cases x r rs n) [
          | inl e ↦ inr (ground (arith, ap InventoryEmptyRange.first e))
          | inr k ↦ elim (best x k) [ inl far ↦ inl far | inr near ↦ inr (ground (arith, near, u)) ]
        ],
      )
      | inr u ↦ rw u (
        Memᴰ.tail m,
        below,
        λ x n. elim (mem_cases x r rs n) [
          | inl e ↦ inr (ground (arith, ap InventoryEmptyRange.first e, u))
          | inr k ↦ best x k
        ],
      )
    ]

    without_head :
        (r : InventoryEmptyRange) (best : Option InventoryEmptyRange)
        → o < r.first
        → Highest o rs best
        → Highest o (r ∷ rs) best
    without_head r none far h = λ x m. elim (mem_cases x r rs m) [
      | inl e ↦ ground (arith, ap InventoryEmptyRange.first e, far)
      | inr n ↦ h x n
    ]
    without_head r (some q) far (m, below, best) = (
      Memᴰ.tail m,
      below,
      λ x n. elim (mem_cases x r rs n) [
        | inl e ↦ inl (ground (arith, ap InventoryEmptyRange.first e, far))
        | inr k ↦ best x k
      ],
    )

-- What the second query finds.
abbrev pub Starting : ℕ → List InventoryEmptyRange → Option InventoryEmptyRange → Type 0
Starting o rs none = (x : InventoryEmptyRange) → Memᴰ x rs → x.first ≡ o → ⊥
Starting o rs (some q) = Memᴰ q rs × (q.first ≡ o)

pub starting_at-Starting :
    (o : ℕ) (rs : List InventoryEmptyRange) → Starting o rs (starting_at o rs)
unfolding starting_at
starting_at-Starting o [] = λ x m e. elim m [ ]
starting_at-Starting o (r ∷ rs) = elim (Bool-cases (r.first == o)) [
  | inl t ↦ rw t (Memᴰ.head refl, ground (arith, t))
  | inr t ↦ rw t (further (starting_at o rs) t (starting_at-Starting o rs))
]
  where
    further :
        (found : Option InventoryEmptyRange)
        → (r.first == o) ≡ false
        → Starting o rs found
        → Starting o (r ∷ rs) found
    further none f h = λ x m e. elim (mem_cases x r rs m) [
      | inl k ↦ ground (arith, ap InventoryEmptyRange.first k, e, f)
      | inr n ↦ h x n e
    ]
    further (some q) f (m, e) = (Memᴰ.tail m, e)
