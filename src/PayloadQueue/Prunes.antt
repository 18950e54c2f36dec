-- ===== src/PayloadQueue/Prunes.antt =====
-- Pruning a consistent queue
-- (examples/cf-game-audit/web/src/audit/bounded-payload-queue.ts).
use converge_audit.Prelude.{
  ◌||◌, subst, sym, ℕ, zero, suc, ◌+◌, ◌-◌, ◌≤◌, ◌≡◌, ◌≢◌, refl, ap, Bool, true, false, List, [],
  ◌∷◌, ◌++◌, arith, length, leb, ltb, ◌==◌, Bool-cases, inl, inr, take, drop, ◌⊎◌,
}
use converge_audit.Prelude.Text.{text_eq_iff, max_safe_integer}
use converge_audit.PayloadQueue.Budget.{PayloadQueueLimits, payload_prunable}
use converge_audit.PayloadQueue.Store.{
  Chunk, Metadata, Queue, QueueOptions, Grant, PruneOutcome, total_bytes, prune, prune_transaction,
  prune_count, removable, grant_accepted, last_digest_is,
}
use converge_audit.PayloadQueue.Consistent.{IsConsistent, Contiguous}

Contiguous-drop :
    (l : PayloadQueueLimits) (k n : ℕ) (cs : List Chunk)
    → Contiguous l n cs
    → k ≤ length cs
    → Contiguous l (n + k) (drop k cs)
Contiguous-drop l zero n cs h le = subst (λ m. Contiguous l m cs) (omega arith) h
Contiguous-drop l (suc k) n [] h le = absurd (omega arith)
Contiguous-drop l (suc k) n (c ∷ cs) h le =
    subst (λ m. Contiguous l m (drop k cs)) (omega arith)
      (Contiguous-drop l k (n + 1) cs h.2 (omega arith))

total_bytes-split :
    (k : ℕ) (cs : List Chunk) → total_bytes (take k cs) + total_bytes (drop k cs) ≡ total_bytes cs
total_bytes-split zero cs = omega arith
total_bytes-split (suc k) [] = omega arith
total_bytes-split (suc k) (c ∷ cs) = omega (arith, total_bytes-split k cs)

take-drop_lem : (k : ℕ) (cs : List Chunk) → cs ≡ take k cs ++ drop k cs
take-drop_lem zero cs = refl
take-drop_lem (suc k) [] = refl
take-drop_lem (suc k) (c ∷ cs) = ap (λ r. c ∷ r) (take-drop_lem k cs)

length-drop : (k : ℕ) (cs : List Chunk) → k ≤ length cs → length (drop k cs) + k ≡ length cs
length-drop zero cs h = omega arith
length-drop (suc k) [] h = absurd (omega arith)
length-drop (suc k) (c ∷ cs) h = omega (arith, length-drop k cs)

length-take_le : (k : ℕ) (cs : List Chunk) → length (take k cs) ≡ k → k ≤ length cs
length-take_le zero cs h = omega arith
length-take_le (suc k) [] h = absurd (omega arith)
length-take_le (suc k) (c ∷ cs) h = omega (arith, length-take_le k cs (omega arith))

-- The facts that a grant must hold, and whose it is.
pub record Authorised (o : QueueOptions) (grant : Grant) : Type 0 where
  pub owned : grant.queue_id ≡ o.queue_id
  pub acknowledged : grant.delivery_acknowledged ≡ true
  pub finalized : grant.gameplay_finalized ≡ true
  pub closed : grant.retention_closed ≡ true
  pub settled : grant.unresolved_reference ≡ false
  pub verified : o.verify_prune_grant grant ≡ true

grant_accepted-Authorised :
    (o : QueueOptions) (grant : Grant) → grant_accepted o grant ≡ true → Authorised o grant
unfolding grant_accepted payload_prunable
grant_accepted-Authorised o grant h = record {
  owned = (text_eq_iff grant.queue_id o.queue_id).0 (ground arith);
  acknowledged = ground arith;
  finalized = ground arith;
  closed = ground arith;
  settled = ground arith;
  verified = ground arith;
}

-- The queue after its first chunks, through the grant's sequence, have been deleted.
abbrev pub without_prefix : Grant → Queue → Queue
without_prefix grant q = record {
  meta = record (q.meta) {
    used_bytes = q.meta.used_bytes - total_bytes (take (prune_count grant q.meta) q.chunks);
    item_count = q.meta.item_count - prune_count grant q.meta;
    first_sequence = grant.through_sequence + 1;
    revision = q.meta.revision + 1;
  };
  chunks = drop (prune_count grant q.meta) q.chunks;
}

-- What the transaction checks before it deletes.
record Deletes (grant : Grant) (q : Queue) : Type 0 where
  current : q.meta.revision ≡ grant.expected_revision
  reached : q.meta.first_sequence ≤ grant.through_sequence
  batch : prune_count grant q.meta ≤ 64
  present : prune_count grant q.meta ≤ length q.chunks
  last :
      last_digest_is grant.through_checkpoint_digest (take (prune_count grant q.meta) q.chunks)
      ≡ true
  revisable : q.meta.revision ≢ max_safe_integer

removable-length :
    (grant : Grant) (m : Metadata) (cs : List Chunk)
    → removable grant m cs ≡ true
    → length cs ≡ prune_count grant m
unfolding removable
removable-length grant m cs h = ground arith

removable-digest :
    (grant : Grant) (m : Metadata) (cs : List Chunk)
    → removable grant m cs ≡ true
    → last_digest_is grant.through_checkpoint_digest cs ≡ true
unfolding removable
removable-digest grant m cs h = ground arith

prune_transaction-cases :
    (grant : Grant) (q : Queue)
    → ((prune_transaction grant q).1 ≡ q) × ((prune_transaction grant q).0 ≢ PruneOutcome.pruned)
      ⊎ (Deletes grant q
          × (prune_transaction grant q ≡ (PruneOutcome.pruned, without_prefix grant q)))
unfolding prune_transaction
prune_transaction-cases grant q = elim (Bool-cases (q.meta.revision == grant.expected_revision)) [
  | inr e ↦ rw e (inl (refl, λ x. cc))
  | inl e ↦ rw e (elim (Bool-cases out_of_range) [
    | inl f ↦ rw f (inl (refl, λ x. cc))
    | inr f ↦
        rw f
          (elim (Bool-cases (removable grant q.meta (take (prune_count grant q.meta) q.chunks))) [
            | inr g ↦ rw g (inl (refl, λ x. cc))
            | inl g ↦ rw g (
                inr (
                  record {
                    current = ground arith;
                    reached = ground arith;
                    batch = ground arith;
                    revisable = ground arith;
                    present =
                        length-take_le (prune_count grant q.meta) q.chunks
                          (removable-length grant q.meta _ g);
                    last = removable-digest grant q.meta _ g;
                  },
                  refl,
                ))
          ])
  ])
]
  where
    out_of_range : Bool
    out_of_range =
        ltb grant.through_sequence q.meta.first_sequence
        || ltb 64 (prune_count grant q.meta)
        || leb q.meta.next_sequence grant.through_sequence
        || q.meta.revision == max_safe_integer

without_prefix-IsConsistent :
    (o : QueueOptions) (grant : Grant) (q : Queue)
    → IsConsistent o q
    → Deletes grant q
    → IsConsistent o (without_prefix grant q)
without_prefix-IsConsistent o grant q h d =
    let k = prune_count grant q.meta in
    let split = total_bytes-split k q.chunks in
    let left = length-drop k q.chunks d.present in
    let reached = d.reached in
    record {
      owned = h.owned;
      limits_kept = h.limits_kept;
      limits_valid = h.limits_valid;
      counted = omega (arith, h.counted, left);
      next = omega (arith, h.next, left, reached);
      bytes = omega (arith, h.bytes, split);
      contiguous =
          subst (λ n. Contiguous q.meta.limits n (drop k q.chunks)) (omega (arith, reached))
            (Contiguous-drop q.meta.limits k q.meta.first_sequence q.chunks h.contiguous d.present);
      items_within = omega (arith, h.items_within);
      bytes_within = omega (arith, h.bytes_within);
      next_safe = h.next_safe;
      revision_safe = bump q.meta.revision h.revision_safe d.revisable;
    }
  where
    bump : (n : ℕ) → n ≤ max_safe_integer → n ≢ max_safe_integer → n + 1 ≤ max_safe_integer
    bump n a b = omega arith

-- How a prune ends that deletes: under which grant, what goes and what stays.
pub record Pruned (o : QueueOptions) (grant : Grant) (q after : Queue) : Type 0 where
  pub authorised : Authorised o grant
  pub current : q.meta.revision ≡ grant.expected_revision
  pub removed : List Chunk
  pub split : q.chunks ≡ removed ++ after.chunks
  pub boundary : last_digest_is grant.through_checkpoint_digest removed ≡ true
  pub count : q.meta.first_sequence + length removed ≡ grant.through_sequence + 1
  pub first : after.meta.first_sequence ≡ grant.through_sequence + 1
  pub next : after.meta.next_sequence ≡ q.meta.next_sequence

length-take_of : (k : ℕ) (cs : List Chunk) → k ≤ length cs → length (take k cs) ≡ k
length-take_of zero cs h = refl
length-take_of (suc k) [] h = absurd (omega arith)
length-take_of (suc k) (c ∷ cs) h = omega (arith, length-take_of k cs)

-- A prune of a consistent queue leaves it consistent. Either it does not report `pruned` and
-- changes nothing, or its grant names this queue and its current revision, states delivery,
-- finality and closed retention with no unresolved reference and is verified, and exactly the
-- first chunks, through the grant's sequence and ending with the grant's digest, are gone.
pub prune-cases :
    (options : QueueOptions) (grant : Grant) (q : Queue)
    → IsConsistent options q
    → IsConsistent options (prune options grant q).1
      × (((prune options grant q).1 ≡ q) × ((prune options grant q).0 ≢ PruneOutcome.pruned)
          ⊎ ((prune options grant q).0 ≡ PruneOutcome.pruned)
            × Pruned options grant q (prune options grant q).1)
unfolding prune
prune-cases o grant q h = elim (Bool-cases (grant_accepted o grant)) [
  | inr e ↦ rw e (h, inl (refl, λ x. cc))
  | inl e ↦ rw e (accepted e (prune_transaction-cases grant q))
]
  where
    accepted :
        grant_accepted o grant ≡ true
        → ((prune_transaction grant q).1 ≡ q)
            × ((prune_transaction grant q).0 ≢ PruneOutcome.pruned)
          ⊎ (Deletes grant q
              × (prune_transaction grant q ≡ (PruneOutcome.pruned, without_prefix grant q)))
        → IsConsistent o (prune_transaction grant q).1
          × (((prune_transaction grant q).1 ≡ q)
                × ((prune_transaction grant q).0 ≢ PruneOutcome.pruned)
              ⊎ ((prune_transaction grant q).0 ≡ PruneOutcome.pruned)
                × Pruned o grant q (prune_transaction grant q).1)
    accepted e (inl (same, ne)) = (subst (IsConsistent o) (sym same) h, inl (same, ne))
    accepted e (inr (d, eq)) = rw eq (
      without_prefix-IsConsistent o grant q h d,
      inr (
        refl,
        record {
          authorised = grant_accepted-Authorised o grant e;
          current = d.current;
          removed = take (prune_count grant q.meta) q.chunks;
          split = take-drop_lem (prune_count grant q.meta) q.chunks;
          boundary = d.last;
          count =
              omega
                (arith, length-take_of (prune_count grant q.meta) q.chunks d.present, d.reached);
          first = refl;
          next = refl;
        },
      ),
    )
