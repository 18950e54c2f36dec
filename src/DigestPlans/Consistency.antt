-- ===== src/DigestPlans/Consistency.antt =====
-- A verified plan is consistent by its own expected digests
-- (examples/player-local-runtime/dependent-digest-verification-plan.ts).
use converge_audit.Prelude.{
  ℕ, suc, ◌+◌, ◌-◌, ◌≤◌, ◌<◌, ◌≡◌, refl, sym, ap, ◌∙◌, ◌↔◌, true, List, [], ◌∷◌, ◌++◌, length,
  length-append, map, arith, ok, bind-eq-ok, ◌>>=◌, ◌>>◌, refuse_if, subst,
}
use mathlib.Core.List.{append-nil, append_assoc}
use converge_audit.Prelude.Text.{Text}
use converge_audit.DigestPlans.Flat.{
  invalid_plan, count_refused, compare_digests, compare_digests_iff,
}
use converge_audit.DigestPlans.Dependent.{
  DependentCheck, DependentPlan, segments_length, dependencies_valid, check_valid, digest_at,
  statement_of, digest_of, compute, verify_dependent_digest_verification_plan,
}

abbrev pub expected : List DependentCheck → List Text
expected = map (λ (c : DependentCheck). c.expected_digest)

-- Every index is below `n`.
abbrev pub Earlier : ℕ → List ℕ → Type 0
Earlier n [] = Unit
Earlier n (d ∷ ds) = (d < n) × Earlier n ds

dependencies_valid-Earlier :
    (n : ℕ) (seen ds : List ℕ) → dependencies_valid n seen ds ≡ true → Earlier n ds
unfolding dependencies_valid
dependencies_valid-Earlier n seen [] h = tt
dependencies_valid-Earlier n seen (d ∷ ds) h =
    (ground arith, dependencies_valid-Earlier n (d ∷ seen) ds (ground arith))

check_valid-Earlier :
    (c : DependentCheck) (n : ℕ) → check_valid c n ≡ true → Earlier n c.dependency_check_indices
unfolding check_valid
check_valid-Earlier c n h =
    dependencies_valid-Earlier n [] c.dependency_check_indices (ground arith)

digest_at-append :
    (xs ys : List Text) (i : ℕ) → i < length xs → digest_at (xs ++ ys) i ≡ digest_at xs i
digest_at-append [] ys i h = absurd (omega (arith, h))
digest_at-append (x ∷ xs) ys i h =
    let rest : i - 1 < length xs → digest_at (xs ++ ys) (i - 1) ≡ digest_at xs (i - 1) =
      λ k. digest_at-append xs ys (i - 1) k in
    ground (arith, rest)

digests_at-append :
    (xs ys : List Text) (ds : List ℕ)
    → Earlier (length xs) ds
    → map (digest_at (xs ++ ys)) ds ≡ map (digest_at xs) ds
digests_at-append xs ys [] h = refl
digests_at-append xs ys (d ∷ ds) h =
    let one = digest_at-append xs ys d h.0 in let rest = digests_at-append xs ys ds h.1 in cc

-- Each check is well formed at its index and its expected digest is the hash of its statement, in
-- which the digests `all` stand for its dependencies.
module _ (hash_string : Text → Text) where
  abbrev pub Consistent : List Text → ℕ → List DependentCheck → Type 0
  Consistent all index [] = Unit
  Consistent all index (c ∷ cs) =
      (check_valid c index ≡ true)
      × (digest_of hash_string all c ≡ c.expected_digest)
      × Consistent all (suc index) cs

  digest_of-append :
      (xs ys : List Text) (c : DependentCheck)
      → check_valid c (length xs) ≡ true
      → digest_of hash_string (xs ++ ys) c ≡ digest_of hash_string xs c
  digest_of-append xs ys c h =
      ap (λ (ds : List Text). hash_string (statement_of c ds))
        (digests_at-append xs ys c.dependency_check_indices (check_valid-Earlier c (length xs) h))

  abbrev pub literals : List DependentCheck → ℕ
  literals [] = 0
  literals (c ∷ cs) = segments_length c.statement_segments + literals cs

  abbrev AllValid : ℕ → List DependentCheck → Type 0
  AllValid index [] = Unit
  AllValid index (c ∷ cs) = (check_valid c index ≡ true) × AllValid (suc index) cs

  -- The digests that the loop adds to those it has computed.
  abbrev digests : List DependentCheck → List Text → List Text
  digests [] computed = []
  digests (c ∷ cs) computed =
      let d = digest_of hash_string computed c in d ∷ digests cs (computed ++ d ∷ [])

  compute_iff :
      (index l : ℕ) (computed : List Text) (cs : List DependentCheck) (out : List Text)
      → l ≤ 8388608
      → (compute hash_string index l computed cs ≡ ok out) ↔ (
          AllValid index cs × (l + literals cs ≤ 8388608) × (out ≡ computed ++ digests cs computed))
  unfolding compute
  compute_iff index l computed [] out h = ground (arith, append-nil computed)
  compute_iff index l computed (c ∷ cs) out h =
      let d = digest_of hash_string computed c in
      let rest =
        compute_iff (index + 1) (l + segments_length c.statement_segments) (computed ++ d ∷ []) cs
          out in
      ground (arith, rest, append_assoc computed (d ∷ []) (digests cs (computed ++ d ∷ [])))

  -- A computed digest that is the expected one moves to the front part.
  shift :
      (computed : List Text) (c : DependentCheck) (cs : List DependentCheck)
      → digest_of hash_string computed c ≡ c.expected_digest
      → (computed ++ digest_of hash_string computed c ∷ []) ++ expected cs
        ≡ computed ++ expected (c ∷ cs)
  shift computed c cs e =
      append_assoc computed (digest_of hash_string computed c ∷ []) (expected cs)
      ∙ ap (λ d. computed ++ d ∷ expected cs) e

  more_computed :
      (index : ℕ) (computed : List Text) (d : Text)
      → length computed ≡ index
      → length (computed ++ d ∷ []) ≡ suc index
  more_computed index computed d n = omega (arith, n, length-append computed (d ∷ []))

  at_index :
      (index : ℕ) (computed more : List Text) (c : DependentCheck)
      → length computed ≡ index
      → check_valid c index ≡ true
      → digest_of hash_string (computed ++ more) c ≡ digest_of hash_string computed c
  at_index index computed more c n v = digest_of-append computed more c (ap (check_valid c) n ∙ v)

  digests-Consistent :
      (index : ℕ) (computed : List Text) (cs : List DependentCheck)
      → length computed ≡ index
      → AllValid index cs
      → digests cs computed ≡ expected cs
      → Consistent (computed ++ expected cs) index cs
  digests-Consistent index computed [] n v e = tt
  digests-Consistent index computed (c ∷ cs) n v e =
      let same : digest_of hash_string computed c ≡ c.expected_digest = cc in
      let rest : digests cs (computed ++ digest_of hash_string computed c ∷ []) ≡ expected cs =
        cc in
      let i = more_computed index computed (digest_of hash_string computed c) n in
      (
        v.0,
        at_index index computed (expected (c ∷ cs)) c n v.0 ∙ same,
        subst (λ all. Consistent all (suc index) cs) (shift computed c cs same)
            (digests-Consistent (suc index) (computed ++ digest_of hash_string computed c ∷ []) cs i
              v.1 rest),
      )

  Consistent-digests :
      (index : ℕ) (computed : List Text) (cs : List DependentCheck)
      → length computed ≡ index
      → Consistent (computed ++ expected cs) index cs
      → AllValid index cs × (digests cs computed ≡ expected cs)
  Consistent-digests index computed [] n h = (tt, refl)
  Consistent-digests index computed (c ∷ cs) n h =
      let same = sym (at_index index computed (expected (c ∷ cs)) c n h.0) ∙ h.1 in
      let i = more_computed index computed (digest_of hash_string computed c) n in
      let rest =
        Consistent-digests (suc index) (computed ++ digest_of hash_string computed c ∷ []) cs i
          (subst (λ all. Consistent all (suc index) cs) (sym (shift computed c cs same)) h.2) in
      ((h.0, rest.0), cc (same, rest.1))

  length-digests :
      (cs : List DependentCheck) (computed : List Text)
      → length (digests cs computed) ≡ length (expected cs)
  length-digests [] computed = refl
  length-digests (c ∷ cs) computed =
      ap suc (length-digests cs (computed ++ digest_of hash_string computed c ∷ []))

  length-expected : (cs : List DependentCheck) → length (expected cs) ≡ length cs
  length-expected [] = refl
  length-expected (c ∷ cs) = ap suc (length-expected cs)

  -- What a verified plan satisfies.
  abbrev pub Verified : DependentPlan → Type 0
  Verified plan =
      (length plan.hash_checks ≡ plan.hash_check_count)
      × (1 ≤ plan.hash_check_count)
      × (plan.hash_check_count ≤ 4224)
      × (literals plan.hash_checks ≤ 8388608)
      × Consistent (expected plan.hash_checks) 0 plan.hash_checks

  pub accepted-Verified :
      (plan : DependentPlan)
      → verify_dependent_digest_verification_plan hash_string plan ≡ ok plan.hash_check_count
      → Verified plan
  unfolding verify_dependent_digest_verification_plan
  accepted-Verified plan h =
      let cs = plan.hash_checks in
      let (done, counted, chain) =
        bind-eq-ok
          (refuse_if (count_refused plan.hash_check_count (length cs) 4224) (invalid_plan 0))
          (λ u. compute hash_string 0 0 [] cs >>= λ actual.
            compare_digests 0 actual (expected cs) >> ok (length actual))
          h in
      let (actual, computed, compared) =
        bind-eq-ok (compute hash_string 0 0 [] cs)
          (λ actual. compare_digests 0 actual (expected cs) >> ok (length actual)) chain in
      let (valid, short, made) = (compute_iff 0 0 [] cs actual (omega arith)).0 computed in
      let (u, equal, out) =
        bind-eq-ok (compare_digests 0 actual (expected cs)) (λ u. ok (length actual)) compared in
      let lengths : length actual ≡ length (expected cs) = ap length made ∙ length-digests cs [] in
      let same = sym made ∙ (compare_digests_iff 0 actual (expected cs) lengths).0 equal in
      let shape : (length cs ≡ plan.hash_check_count)
          × (1 ≤ plan.hash_check_count)
          × (plan.hash_check_count ≤ 4224) =
        ground arith in
      (shape.0, shape.1, shape.2, omega (arith, short), digests-Consistent 0 [] cs refl valid same)

  pub Verified-accepted :
      (plan : DependentPlan)
      → Verified plan
      → verify_dependent_digest_verification_plan hash_string plan ≡ ok plan.hash_check_count
  unfolding verify_dependent_digest_verification_plan
  Verified-accepted plan h =
      let cs = plan.hash_checks in
      let (valid, same) = Consistent-digests 0 [] cs refl h.4 in
      let made =
        (compute_iff 0 0 [] cs (digests cs []) (omega arith)).1 (valid, omega (arith, h.3), refl) in
      ground (
        arith,
        made,
        compare_digests_iff 0 (digests cs []) (expected cs) (length-digests cs []),
        same,
        length-digests cs [],
        length-expected cs,
      )

-- A dependent plan is verified, with the number of its checks, exactly when it has between 1 and
-- 4224 checks, as many as it says, its literal segments together are at most 8388608 long, each
-- check is well formed at its position, depending on earlier checks only, and the expected digest
-- of each check is the hash of its segments with the expected digests of its dependencies between
-- them.
pub dependent_plan_iff :
    (hash_string : Text → Text) (plan : DependentPlan)
    → (verify_dependent_digest_verification_plan hash_string plan ≡ ok plan.hash_check_count) ↔ (
        (length plan.hash_checks ≡ plan.hash_check_count)
        × (1 ≤ plan.hash_check_count)
        × (plan.hash_check_count ≤ 4224)
        × (literals hash_string plan.hash_checks ≤ 8388608)
        × Consistent hash_string (expected plan.hash_checks) 0 plan.hash_checks)
dependent_plan_iff hash_string plan =
    (accepted-Verified hash_string plan, Verified-accepted hash_string plan)
