-- ===== src/DigestPlans/Tests.antt =====
-- Small plans and trees, and the theorems at them.
use converge_audit.Prelude.{
  ℕ, zero, suc, ◌+◌, ◌%◌, ◌≤◌, ◌≡◌, ◌↔◌, refl, Bool, true, some, List, [], ◌∷◌, length, ok, err,
}
use converge_audit.Prelude.Text.{Text, codes, text_eq}
use converge_audit.Prelude.Json.{Json, num, str, array, stringify}
use converge_audit.Prelude.Json.Injective.{stringify_injective}
use converge_audit.DigestPlans.Flat.{
  DigestVerificationCheck, DigestVerificationPlan, HashesMatch, digest_mismatch, all_checks_valid,
  compare_digests, digest_verification_check_valid, verify_digest_verification_plan, flat_plan_iff,
}
use converge_audit.DigestPlans.Dependent.{
  DependentCheck, DependentPlan, check_valid, compute, dependencies_valid, statement_of,
  verify_dependent_digest_verification_plan,
}
use converge_audit.DigestPlans.Consistency.{Consistent, expected, literals, dependent_plan_iff}
use converge_audit.DigestPlans.Merkle.{MerkleFraming, content_root, merkle_root, merkle_root-total}
use converge_audit.DigestPlans.MerkleBinding.{IsUnambiguous, merkle_root_binds}

abbrev repeated : ℕ → ℕ → Text
repeated zero c = []
repeated (suc n) c = c ∷ repeated n c

-- A digest by the length of the text.
abbrev hash_string : Text → Text
hash_string t = repeated 64 (b'0' + length t % 10)

abbrev flat_check : DigestVerificationCheck
flat_check = record {
  kind = codes "leaf";
  check_index = 0;
  canonical_statement = codes "abc";
  expected_digest = repeated 64 b'3';
}

abbrev flat_plan : DigestVerificationPlan
flat_plan = record { hash_check_count = 1; hash_checks = flat_check ∷ [] }

run_of_flat : DigestVerificationPlan → Bool
unfolding verify_digest_verification_plan all_checks_valid compare_digests text_eq
    digest_verification_check_valid
run_of_flat p = true

flat_verified : verify_digest_verification_plan hash_string flat_plan ≡ ok 1
unfolding run_of_flat
flat_verified = refl

flat_mismatch :
    verify_digest_verification_plan hash_string (record {
      hash_check_count = 1;
      hash_checks = record flat_check { expected_digest = repeated 64 b'4' } ∷ [];
    })
    ≡ err (digest_mismatch 0)
unfolding run_of_flat
flat_mismatch = refl

flat_plan_iff_example : (verify_digest_verification_plan hash_string flat_plan ≡ ok 1) ↔ (
    (length flat_plan.hash_checks ≡ 1)
    × (1 ≤ flat_plan.hash_check_count)
    × (1 ≤ 4096)
    × HashesMatch hash_string 0 (flat_check ∷ []))
flat_plan_iff_example = flat_plan_iff hash_string flat_plan

-- The second statement is "<" digest ">", of length 66.
abbrev first_check : DependentCheck
first_check = record {
  kind = codes "leaf";
  check_index = 0;
  statement_segments = codes "abc" ∷ [];
  dependency_check_indices = [];
  expected_digest = repeated 64 b'3';
}

abbrev second_check : DependentCheck
second_check = record {
  kind = codes "node";
  check_index = 1;
  statement_segments = codes "<" ∷ codes ">" ∷ [];
  dependency_check_indices = 0 ∷ [];
  expected_digest = repeated 64 b'6';
}

abbrev dependent_plan : DependentPlan
dependent_plan = record { hash_check_count = 2; hash_checks = first_check ∷ second_check ∷ [] }

dependent_verified : verify_dependent_digest_verification_plan hash_string dependent_plan ≡ ok 2
unfolding verify_dependent_digest_verification_plan compute check_valid dependencies_valid
    statement_of compare_digests text_eq
dependent_verified = refl

dependent_plan_iff_example :
    (verify_dependent_digest_verification_plan hash_string dependent_plan
      ≡ ok dependent_plan.hash_check_count)
    ↔ ((length dependent_plan.hash_checks ≡ dependent_plan.hash_check_count)
        × (1 ≤ dependent_plan.hash_check_count)
        × (dependent_plan.hash_check_count ≤ 4224)
        × (literals hash_string dependent_plan.hash_checks ≤ 8388608)
        × Consistent hash_string (expected dependent_plan.hash_checks) 0 dependent_plan.hash_checks)
dependent_plan_iff_example = dependent_plan_iff hash_string dependent_plan

-- A framing by JSON, and a hash without collisions: the text itself.
abbrev same_text : Text → Text
same_text t = t

abbrev node_json : Text → Text → Json
node_json a b = array (str a ∷ str b ∷ [])

abbrev root_json : ℕ → Text → Json
root_json n c = array (num n ∷ str c ∷ [])

abbrev json_framing : MerkleFraming
json_framing = record {
  leaf = λ p. p;
  node = λ a b. stringify (node_json a b);
  empty = [];
  root = λ n c. stringify (root_json n c);
}

json_framing-IsUnambiguous : IsUnambiguous same_text json_framing
json_framing-IsUnambiguous = record {
  leaf_injective = λ p q e. e;
  node_injective = node_parts;
  root_injective = root_parts;
}
  where
    node_parts :
        (a b c d : Text) → stringify (node_json a b) ≡ stringify (node_json c d) → (a ≡ c) × (b ≡ d)
    node_parts a b c d e =
        let same = stringify_injective (node_json a b) (node_json c d) e in (cc, cc)

    root_parts :
        (m n : ℕ) (c d : Text)
        → stringify (root_json m c) ≡ stringify (root_json n d)
        → (m ≡ n) × (c ≡ d)
    root_parts m n c d e =
        let same = stringify_injective (root_json m c) (root_json n d) e in (cc, cc)

abbrev three : List Text
three = codes "a" ∷ codes "b" ∷ codes "c" ∷ []

merkle_root-total_example :
    (content : Text) × (content_root same_text json_framing three ≡ some content)
    × (merkle_root same_text json_framing three ≡ some (json_framing.root 3 content))
merkle_root-total_example = merkle_root-total same_text json_framing three

merkle_root_binds_example : three ≡ three
merkle_root_binds_example =
    merkle_root_binds same_text json_framing three three json_framing-IsUnambiguous
      (λ a b ma mb e. e) refl
