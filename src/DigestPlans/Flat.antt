-- ===== src/DigestPlans/Flat.antt =====
-- Plans whose checks stand alone
-- (examples/player-local-runtime/digest-verification-plan.ts). The backend's hash is an argument.
use converge_audit.Prelude.{
  ℕ, suc, ◌+◌, ◌≤◌, ◌≡◌, refl, ap, ◌↔◌, Bool, true, not, ◌&&◌, ◌||◌, List, [], ◌∷◌, length, map,
  leb, ltb, ◌==◌, arith, Result, ok, err, ◌>>◌, refuse_if,
}
use converge_audit.Prelude.Text.{Text, text_eq, text_eq_iff, bounded_text, is_hex, max_safe_integer}

pub record DigestVerificationCheck : Type 0 where
  pub kind : Text
  pub check_index : ℕ
  pub canonical_statement : Text
  pub expected_digest : Text

pub record DigestVerificationPlan : Type 0 where
  pub hash_check_count : ℕ
  pub hash_checks : List DigestVerificationCheck

-- The reason and the index of the check at which it arose.
pub data PlanRefusal : Type 0 where
  invalid_plan digest_mismatch : ℕ → PlanRefusal

abbrev pub digest_valid : Text → Bool
digest_valid = is_hex 64

unfoldable pub digest_verification_check_valid : DigestVerificationCheck → ℕ → Bool
digest_verification_check_valid check expected_index =
    bounded_text check.kind 256
    && check.check_index == expected_index
    && bounded_text check.canonical_statement 65536
    && digest_valid check.expected_digest

-- `!Number.isSafeInteger(count) || count <= 0 || count > maximum || checks.length !== count`
abbrev pub count_refused : ℕ → ℕ → ℕ → Bool
count_refused count number maximum =
    not (leb count max_safe_integer) || leb count 0 || ltb maximum count || not (number == count)

unfoldable pub all_checks_valid : ℕ → List DigestVerificationCheck → Result PlanRefusal (Unit {0})
all_checks_valid index [] = ok tt
all_checks_valid index (check ∷ rest) = do
  refuse_if (not (digest_verification_check_valid check index)) (invalid_plan index)
  all_checks_valid (index + 1) rest

-- Compares the digests with the expected ones, in order.
unfoldable pub compare_digests : ℕ → List Text → List Text → Result PlanRefusal (Unit {0})
compare_digests index [] expected = ok tt
compare_digests index (d ∷ ds) [] = err (digest_mismatch index)
compare_digests index (d ∷ ds) (e ∷ es) = do
  refuse_if (not (text_eq d e)) (digest_mismatch index)
  compare_digests (index + 1) ds es

unfoldable pub verify_digest_verification_plan :
    (Text → Text) → DigestVerificationPlan → Result PlanRefusal ℕ
verify_digest_verification_plan hash_string plan = do
  refuse_if (count_refused plan.hash_check_count (length plan.hash_checks) 4096) (invalid_plan 0)
  all_checks_valid 0 plan.hash_checks
  let actual =
      map (λ (c : DigestVerificationCheck). hash_string c.canonical_statement) plan.hash_checks
  compare_digests 0 actual
      (map (λ (c : DigestVerificationCheck). c.expected_digest) plan.hash_checks)
  ok (length actual)

pub compare_digests_iff :
    (index : ℕ) (ds es : List Text)
    → length ds ≡ length es
    → (compare_digests index ds es ≡ ok tt) ↔ (ds ≡ es)
unfolding compare_digests
compare_digests_iff index [] [] h = (λ e. refl, λ e. refl)
compare_digests_iff index [] (e ∷ es) h = absurd (omega (arith, h))
compare_digests_iff index (d ∷ ds) [] h = absurd (omega (arith, h))
compare_digests_iff index (d ∷ ds) (e ∷ es) h =
    let rest = compare_digests_iff (index + 1) ds es (omega (arith, h)) in
    ground (arith, text_eq_iff d e, rest)

-- Every check is well formed at its index, and its expected digest is the hash of its statement.
abbrev pub HashesMatch : (Text → Text) → ℕ → List DigestVerificationCheck → Type 0
HashesMatch hash_string index [] = Unit
HashesMatch hash_string index (c ∷ cs) =
    (digest_verification_check_valid c index ≡ true)
    × (hash_string c.canonical_statement ≡ c.expected_digest)
    × HashesMatch hash_string (suc index) cs

module _ (hash_string : Text → Text) where
  abbrev hashes : List DigestVerificationCheck → List Text
  hashes = map (λ (c : DigestVerificationCheck). hash_string c.canonical_statement)

  abbrev expected : List DigestVerificationCheck → List Text
  expected = map (λ (c : DigestVerificationCheck). c.expected_digest)

  same_length : (cs : List DigestVerificationCheck) → length (hashes cs) ≡ length (expected cs)
  same_length [] = refl
  same_length (c ∷ cs) = ap suc (same_length cs)

  length-hashes : (cs : List DigestVerificationCheck) → length (hashes cs) ≡ length cs
  length-hashes [] = refl
  length-hashes (c ∷ cs) = ap suc (length-hashes cs)

  HashesMatch-iff :
      (index : ℕ) (cs : List DigestVerificationCheck)
      → ((all_checks_valid index cs ≡ ok tt) × (hashes cs ≡ expected cs))
        ↔ HashesMatch hash_string index cs
  unfolding all_checks_valid
  HashesMatch-iff index [] = (λ p. tt, λ p. (refl, refl))
  HashesMatch-iff index (c ∷ cs) = let rest = HashesMatch-iff (suc index) cs in ground (arith, rest)

-- A plan is verified, with the number of its checks, exactly when it has between 1 and 4096 checks,
-- as many as it says, each well formed and numbered by its position, and the hash of each check's
-- statement is its expected digest.
pub flat_plan_iff :
    (hash_string : Text → Text) (plan : DigestVerificationPlan)
    → (verify_digest_verification_plan hash_string plan ≡ ok plan.hash_check_count) ↔ (
        (length plan.hash_checks ≡ plan.hash_check_count)
        × (1 ≤ plan.hash_check_count)
        × (plan.hash_check_count ≤ 4096)
        × HashesMatch hash_string 0 plan.hash_checks)
unfolding verify_digest_verification_plan
flat_plan_iff hash_string plan =
    let cs = plan.hash_checks in
    let agree =
      compare_digests_iff 0 (hashes hash_string cs) (expected hash_string cs)
        (same_length hash_string cs) in
    ground (arith, agree, HashesMatch-iff hash_string 0 cs, length-hashes hash_string cs)
