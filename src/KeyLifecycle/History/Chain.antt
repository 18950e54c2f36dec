-- ===== src/KeyLifecycle/History/Chain.antt =====
-- What a checked chain of versions says of any two of its records.
use converge_audit.Prelude.{
  ◌+◌, ◌≤◌, ◌<◌, ◌≡◌, sym, ◌⊎◌, inl, inr, true, List, [], ◌∷◌, ◌∙◌, Memᴰ, arith, all, ok, subst,
}
use converge_audit.KeyLifecycle.Records.{
  VerificationKeyRecord, valid_key_record, valid_key_record_window,
}
use converge_audit.KeyLifecycle.History.{check_chain, check_ordered}

-- The window of an earlier version ends before that of a later one begins.
pub record Before (r s : VerificationKeyRecord) : Type 0 where
  pub versions : r.key_version < s.key_version
  pub windows : r.valid_until_ms ≤ s.valid_from_ms

Before-trans :
    {r s t : VerificationKeyRecord}
    → Before r s
    → s.valid_from_ms < s.valid_until_ms
    → Before s t
    → Before r t
Before-trans a w b = ground arith

pub check_chain-head :
    (p c : VerificationKeyRecord) (cs : List VerificationKeyRecord)
    → check_chain p (c ∷ cs) ≡ ok tt
    → (c.key_version ≡ p.key_version + 1) × Before p c × (check_chain c cs ≡ ok tt)
unfolding check_chain
check_chain-head p c cs h = (ground arith, ground arith, ground arith)

check_chain-Before :
    (p : VerificationKeyRecord) (cs : List VerificationKeyRecord)
    → check_chain p cs ≡ ok tt
    → all valid_key_record cs ≡ true
    → {r : VerificationKeyRecord} → Memᴰ r cs
    → Before p r
check_chain-Before p [] h v m = elim m [ ]
check_chain-Before p (c ∷ cs) h v (Memᴰ.head e) =
    let (_, before, _) = check_chain-head p c cs h in subst (Before p) (sym e) before
check_chain-Before p (c ∷ cs) h v (Memᴰ.tail m) =
    let (_, before, rest) = check_chain-head p c cs h in
    let window = valid_key_record_window c (ground arith) in
    Before-trans before window.0 (check_chain-Before c cs rest (ground arith) m)

-- Two records of a chain are one, or one stands before the other.
abbrev pub Ordered : VerificationKeyRecord → VerificationKeyRecord → Type 0
Ordered r s = (r ≡ s) ⊎ (Before r s ⊎ Before s r)

check_chain-Ordered :
    {r s : VerificationKeyRecord} (cs : List VerificationKeyRecord) (p : VerificationKeyRecord)
    → check_chain p cs ≡ ok tt
    → all valid_key_record (p ∷ cs) ≡ true
    → Memᴰ r (p ∷ cs)
    → Memᴰ s (p ∷ cs)
    → Ordered r s
check_chain-Ordered cs p h v (Memᴰ.head a) (Memᴰ.head b) = inl (a ∙ sym b)
check_chain-Ordered {r} {s} cs p h v (Memᴰ.head a) (Memᴰ.tail m) =
    inr (inl (subst (λ x. Before x s) (sym a) (check_chain-Before p cs h (ground arith) m)))
check_chain-Ordered {r} {s} cs p h v (Memᴰ.tail m) (Memᴰ.head b) =
    inr (inr (subst (λ x. Before x r) (sym b) (check_chain-Before p cs h (ground arith) m)))
check_chain-Ordered [] p h v (Memᴰ.tail m) (Memᴰ.tail n) = elim m [ ]
check_chain-Ordered (c ∷ cs) p h v (Memᴰ.tail m) (Memᴰ.tail n) =
    check_chain-Ordered cs c (check_chain-head p c cs h).2 (ground arith) m n

pub check_ordered-Ordered :
    (cs : List VerificationKeyRecord)
    → check_ordered cs ≡ ok tt
    → all valid_key_record cs ≡ true
    → {r s : VerificationKeyRecord} → Memᴰ r cs
    → Memᴰ s cs
    → Ordered r s
check_ordered-Ordered [] h v m n = elim m [ ]
check_ordered-Ordered (c ∷ cs) h v m n = check_chain-Ordered cs c h v m n
