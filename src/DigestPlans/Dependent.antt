-- ===== src/DigestPlans/Dependent.antt =====
-- Plans whose statements hold the digests of earlier checks
-- (examples/player-local-runtime/dependent-digest-verification-plan.ts). The backend's hash is an
-- argument; its promises are awaited in the order of the checks.
use converge_audit.Prelude.{
  ℕ, ◌+◌, ◌-◌, Bool, true, not, ◌&&◌, List, [], ◌∷◌, ◌++◌, length, map, leb, ltb, ◌==◌,
  if◌then◌else◌, any, Result, ok, ◌>>=◌, ◌>>◌, refuse_if,
}
use converge_audit.Prelude.Text.{Text, codes, bounded_text, max_safe_integer}
use converge_audit.DigestPlans.Flat.{
  PlanRefusal, invalid_plan, digest_valid, count_refused, compare_digests,
}

pub record DependentCheck : Type 0 where
  pub kind : Text
  pub check_index : ℕ
  pub statement_segments : List Text
  pub dependency_check_indices : List ℕ
  pub expected_digest : Text

pub record DependentPlan : Type 0 where
  pub hash_check_count : ℕ
  pub hash_checks : List DependentCheck

abbrev pub segments_length : List Text → ℕ
segments_length [] = 0
segments_length (s ∷ ss) = length s + segments_length ss

-- Every segment is at most 65536 long; it may be empty.
abbrev pub segments_bounded : List Text → Bool
segments_bounded [] = true
segments_bounded (s ∷ ss) = leb (length s) 65536 && segments_bounded ss

-- Every dependency is on an earlier check, and none is `seen` before.
unfoldable pub dependencies_valid : ℕ → List ℕ → List ℕ → Bool
dependencies_valid expected_index seen [] = true
dependencies_valid expected_index seen (d ∷ ds) =
    leb d max_safe_integer
    && ltb d expected_index
    && not (any (λ s. s == d) seen)
    && dependencies_valid expected_index (d ∷ seen) ds

unfoldable pub check_valid : DependentCheck → ℕ → Bool
check_valid check expected_index =
    bounded_text check.kind 256
    && check.check_index == expected_index
    && length check.statement_segments == length check.dependency_check_indices + 1
    && leb (length check.statement_segments) 17
    && digest_valid check.expected_digest
    && segments_bounded check.statement_segments
    && ltb 0 (segments_length check.statement_segments)
    && leb (segments_length check.statement_segments) 65536
    && dependencies_valid expected_index [] check.dependency_check_indices

-- `computed[index]`; out of range it is `undefined`, which `+=` writes as that word.
abbrev pub digest_at : List Text → ℕ → Text
digest_at [] index = codes "undefined"
digest_at (d ∷ ds) index = if index == 0 then d else digest_at ds (index - 1)

abbrev segment_at : List Text → Text
segment_at [] = codes "undefined"
segment_at (s ∷ ss) = s

abbrev later : List Text → List Text
later [] = []
later (s ∷ ss) = ss

-- `statement += digests[i] + segments[i + 1]`
abbrev pub interleave : List Text → List Text → Text
interleave [] segments = []
interleave (d ∷ ds) segments = d ++ segment_at segments ++ interleave ds (later segments)

unfoldable pub statement_of : DependentCheck → List Text → Text
statement_of check digests =
    segment_at check.statement_segments ++ interleave digests (later check.statement_segments)

-- The digest of a check, its dependencies taken from `computed`.
abbrev pub digest_of : (Text → Text) → List Text → DependentCheck → Text
digest_of hash_string computed check =
    hash_string (statement_of check (map (digest_at computed) check.dependency_check_indices))

unfoldable pub compute :
    (Text → Text) → ℕ → ℕ → List Text → List DependentCheck → Result PlanRefusal (List Text)
compute hash_string index literal_bytes computed [] = ok computed
compute hash_string index literal_bytes computed (check ∷ rest) = do
  refuse_if (not (check_valid check index)) (invalid_plan index)
  let literal_bytes' = literal_bytes + segments_length check.statement_segments
  refuse_if (ltb 8388608 literal_bytes') (invalid_plan index)
  compute hash_string (index + 1) literal_bytes'
      (computed ++ digest_of hash_string computed check ∷ []) rest

unfoldable pub verify_dependent_digest_verification_plan :
    (Text → Text) → DependentPlan → Result PlanRefusal ℕ
verify_dependent_digest_verification_plan hash_string plan = do
  refuse_if (count_refused plan.hash_check_count (length plan.hash_checks) 4224) (invalid_plan 0)
  actual ← compute hash_string 0 0 [] plan.hash_checks
  compare_digests 0 actual (map (λ (c : DependentCheck). c.expected_digest) plan.hash_checks)
  ok (length actual)
