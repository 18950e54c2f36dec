-- ===== src/InventoryRanges/Tests.antt =====
-- A table of three runs, two of which an ordinal joins.
use converge_audit.Prelude.{
  ℕ, ◌≡◌, ◌↔◌, ◌⊎◌, inl, inr, refl, sym, subst, List, [], ◌∷◌, arith, ok, err,
}
use converge_audit.InventoryRanges.Store.{
  InventoryEmptyRange, already_retired, invalid_ordinal, highest, starting_at, add,
}
use converge_audit.InventoryRanges.Runs.{Apart, AreRuns, no_runs, and_run, Retired, mem_cases}
use converge_audit.InventoryRanges.Refines.{add_refines}

abbrev run : ℕ → ℕ → InventoryEmptyRange
run first last = record { first = first; last = last }

abbrev runs : List InventoryEmptyRange
runs = run 10 12 ∷ run 1 3 ∷ run 5 6 ∷ []

joins_two : add 4 runs ≡ ok (run 1 6 ∷ run 10 12 ∷ [])
unfolding add highest starting_at
joins_two = refl

stands_alone : add 8 runs ≡ ok (run 8 8 ∷ runs)
unfolding add highest starting_at
stands_alone = refl

is_retired : add 11 runs ≡ err already_retired
unfolding add highest starting_at
is_retired = refl

zero_refused : add 0 runs ≡ err invalid_ordinal
unfolding add highest starting_at
zero_refused = refl

Apart-by_first : (x y r : InventoryEmptyRange) → Apart y r → x ≡ y → Apart x r
Apart-by_first x y r a e = subst (λ k. Apart k r) (sym e) a

runs-AreRuns : AreRuns runs
runs-AreRuns =
    and_run refl
      (λ x m. elim (mem_cases x (run 1 3) (run 5 6 ∷ []) m) [
        | inl e ↦ Apart-by_first x (run 1 3) (run 10 12) (inl (omega arith)) e
        | inr n ↦ elim (mem_cases x (run 5 6) [] n) [
          | inl e ↦ Apart-by_first x (run 5 6) (run 10 12) (inl (omega arith)) e
          | inr k ↦ elim k [ ]
        ]
      ])
      (and_run refl
        (λ x m. elim (mem_cases x (run 5 6) [] m) [
          | inl e ↦ Apart-by_first x (run 5 6) (run 1 3) (inr (omega arith)) e
          | inr k ↦ elim k [ ]
        ])
        (and_run refl (λ x m. elim m [ ]) no_runs))

add_refines_example :
    (Retired 4 runs × (add 4 runs ≡ err already_retired))
    ⊎ ((new : List InventoryEmptyRange) × (add 4 runs ≡ ok new)
        × AreRuns new
        × ((n : ℕ) → Retired n new ↔ (Retired n runs ⊎ (n ≡ 4))))
add_refines_example = add_refines 4 runs runs-AreRuns (omega arith) (omega arith)
