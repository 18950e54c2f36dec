-- ===== src/PayloadQueue/Appends.antt =====
-- Appending to a consistent queue
-- (examples/cf-game-audit/web/src/audit/bounded-payload-queue.ts).
use converge_audit.Prelude.{
  ◌||◌, subst, sym, ℕ, ◌+◌, ◌-◌, ◌≤◌, ◌<◌, ◌≡◌, ◌≢◌, refl, Bool, true, false, not, some, List, [],
  ◌∷◌, ◌++◌, arith, length, leb, ltb, ◌==◌, Bool-cases, inl, inr, if◌then◌else◌, length-append,
  insert_by, any, Memᴰ, ok, Result,
}
use converge_audit.Prelude.Text.{text_eq_refl, max_safe_integer}
use converge_audit.PayloadQueue.Budget.{
  PayloadQueueLimits, payload_queue_limits_valid, admits, admits_room,
}
use converge_audit.PayloadQueue.Store.{
  Chunk, Queue, QueueOptions, AppendOutcome, stored, duplicate, conflict, gap, pruned, backpressure,
  invalid, digest, total_bytes, chunk_at, same_payload, append, append_transaction, compare_stored,
  store_chunk, Fault,
}
use converge_audit.PayloadQueue.Consistent.{IsConsistent, Contiguous, ChunkFits}

chunk_found :
    (l : PayloadQueueLimits) (s n : ℕ) (cs : List Chunk)
    → Contiguous l n cs
    → n ≤ s
    → s < n + length cs
    → (c : Chunk) × (chunk_at s cs ≡ some c)
chunk_found l s n [] h low high = absurd (omega arith)
chunk_found l s n (c ∷ cs) h low high = elim (Bool-cases (c.sequence == s)) [
  | inl e ↦ (c, rw e)
  | inr e ↦
      let rest = chunk_found l s (n + 1) cs h.2 (later e h.0) (omega arith) in (rest.0, rw e rest.1)
]
  where
    later : (c.sequence == s) ≡ false → c.sequence ≡ n → n + 1 ≤ s
    later e q = ground arith

insert-last :
    (l : PayloadQueueLimits) (c : Chunk) (n : ℕ) (cs : List Chunk)
    → Contiguous l n cs
    → c.sequence ≡ n + length cs
    → insert_by Chunk.sequence c cs ≡ cs ++ c ∷ []
unfolding insert_by
insert-last l c n [] h e = refl
insert-last l c n (d ∷ cs) h e =
    let rest = insert-last l c (n + 1) cs h.2 (omega arith) in let first = h.0 in ground arith

no_clash :
    (l : PayloadQueueLimits) (s n : ℕ) (cs : List Chunk)
    → Contiguous l n cs
    → n + length cs ≤ s
    → any (λ (c : Chunk). c.sequence == s) cs ≡ false
no_clash l s n [] h e = refl
no_clash l s n (d ∷ cs) h e =
    let rest = no_clash l s (n + 1) cs h.2 (omega arith) in let first = h.0 in ground arith

Contiguous-append :
    (l : PayloadQueueLimits) (c : Chunk) (n : ℕ) (cs : List Chunk)
    → Contiguous l n cs
    → c.sequence ≡ n + length cs
    → ChunkFits l c
    → Contiguous l n (cs ++ c ∷ [])
Contiguous-append l c n [] h e fits = (omega arith, fits, tt)
Contiguous-append l c n (d ∷ cs) h e fits =
    (h.0, h.1, Contiguous-append l c (n + 1) cs h.2 (omega arith) fits)

total_bytes-append :
    (cs : List Chunk) (c : Chunk) → total_bytes (cs ++ c ∷ []) ≡ total_bytes cs + length c.payload
total_bytes-append [] c = omega arith
total_bytes-append (d ∷ cs) c = omega (arith, total_bytes-append cs c)

-- The queue after a chunk has been stored.
abbrev pub with_chunk : Chunk → Queue → Queue
with_chunk c q = record {
  meta = record (q.meta) {
    used_bytes = q.meta.used_bytes + length c.payload;
    item_count = q.meta.item_count + 1;
    next_sequence = q.meta.next_sequence + 1;
    revision = q.meta.revision + 1;
  };
  chunks = q.chunks ++ c ∷ [];
}

store_chunk-eq :
    (o : QueueOptions) (c : Chunk) (q : Queue)
    → IsConsistent o q
    → c.sequence ≡ q.meta.next_sequence
    → store_chunk c q ≡ ok (stored, with_chunk c q)
store_chunk-eq o c q h e =
    let free =
      no_clash q.meta.limits c.sequence q.meta.first_sequence q.chunks h.contiguous
        (omega (arith, h.next)) in
    let last =
      insert-last q.meta.limits c q.meta.first_sequence q.chunks h.contiguous
        (omega (arith, h.next)) in
    rw (free, last)

with_chunk-IsConsistent :
    (o : QueueOptions) (c : Chunk) (q : Queue)
    → IsConsistent o q
    → c.sequence ≡ q.meta.next_sequence
    → digest c.checkpoint_digest ≡ true
    → admits q.meta.limits q.meta.used_bytes q.meta.item_count (length c.payload) ≡ true
    → q.meta.next_sequence ≢ max_safe_integer
    → q.meta.revision ≢ max_safe_integer
    → IsConsistent o (with_chunk c q)
with_chunk-IsConsistent o c q h e d a n r =
    let room = admits_room q.meta.limits q.meta.used_bytes q.meta.item_count (length c.payload) a in
    record {
      owned = h.owned;
      limits_kept = h.limits_kept;
      limits_valid = h.limits_valid;
      counted = omega (arith, h.counted, length-append q.chunks (c ∷ []));
      next = omega (arith, h.next, length-append q.chunks (c ∷ []));
      bytes = omega (arith, h.bytes, total_bytes-append q.chunks c);
      contiguous =
          Contiguous-append q.meta.limits c q.meta.first_sequence q.chunks h.contiguous
            (omega (arith, h.next)) (d, room.0, room.1);
      items_within = omega (arith, room);
      bytes_within = omega (arith, room);
      next_safe = omega (arith, h.next_safe);
      revision_safe = omega (arith, h.revision_safe);
    }

-- How an append ends.
pub record Ends (o : QueueOptions) (c : Chunk) (q : Queue)
    (r : Result Fault (AppendOutcome × Queue)) : Type 0 where
  pub outcome : AppendOutcome
  pub after : Queue
  pub ended : r ≡ ok (outcome, after)
  pub consistent : IsConsistent o after
  pub otherwise_same : outcome ≢ stored → after ≡ q
  pub stored_last :
      outcome ≡ stored → (c.sequence ≡ q.meta.next_sequence) × (after ≡ with_chunk c q)

same_queue :
    (o : QueueOptions) (c : Chunk) (q : Queue) (out : AppendOutcome)
    (r : Result Fault (AppendOutcome × Queue))
    → IsConsistent o q
    → out ≢ stored
    → r ≡ ok (out, q)
    → Ends o c q r
same_queue o c q out r h ne e = record {
  outcome = out;
  after = q;
  ended = e;
  consistent = h;
  otherwise_same = λ _. refl;
  stored_last = λ s. absurd (ne s);
}

compare_stored-Ends :
    (o : QueueOptions) (c : Chunk) (q : Queue)
    → IsConsistent o q
    → q.meta.first_sequence ≤ c.sequence
    → c.sequence < q.meta.next_sequence
    → Ends o c q (compare_stored (chunk_at c.sequence q.chunks) c q)
compare_stored-Ends o c q h low high =
    let (d, found) =
      chunk_found q.meta.limits c.sequence q.meta.first_sequence q.chunks h.contiguous low
        (omega (arith, h.next)) in
    same_queue o c q (if same_payload d c then duplicate else conflict) _ h (ground arith)
      (rw found)

append_transaction-Ends :
    (o : QueueOptions) (c : Chunk) (q : Queue)
    → IsConsistent o q
    → digest c.checkpoint_digest ≡ true
    → Ends o c q (append_transaction c q)
unfolding append_transaction
append_transaction-Ends o c q h d = elim (Bool-cases (ltb c.sequence q.meta.first_sequence)) [
  | inl e ↦ rw e (same_queue o c q pruned _ h (λ x. cc) refl)
  | inr e ↦ rw e (elim (Bool-cases (ltb c.sequence q.meta.next_sequence)) [
    | inl f ↦ rw f (compare_stored-Ends o c q h (ground arith) (ground arith))
    | inr f ↦ rw f (elim (Bool-cases (c.sequence == q.meta.next_sequence)) [
      | inl g ↦ rw g (elim (Bool-cases (refused_write)) [
        | inl k ↦ rw k (same_queue o c q backpressure _ h (λ x. cc) refl)
        | inr k ↦ rw k (writes (ground arith) k)
      ])
      | inr g ↦ rw g (same_queue o c q gap _ h (λ x. cc) refl)
    ])
  ])
]
  where
    refused_write : Bool
    refused_write =
        q.meta.next_sequence == max_safe_integer
        || q.meta.revision == max_safe_integer
        || not (admits q.meta.limits q.meta.used_bytes q.meta.item_count (length c.payload))

    writes :
        c.sequence ≡ q.meta.next_sequence → refused_write ≡ false → Ends o c q (store_chunk c q)
    writes e k = record {
      outcome = stored;
      after = with_chunk c q;
      ended = store_chunk-eq o c q h e;
      consistent = with_chunk-IsConsistent o c q h e d (ground arith) (ground arith) (ground arith);
      otherwise_same = λ ne. absurd (ne refl);
      stored_last = λ s. (e, refl);
    }

-- An append to a consistent queue ends without a fault and leaves the queue consistent. Where the
-- outcome is not `stored` the queue is unchanged; where it is, the chunk has the next sequence and
-- has been added behind the others, with the counters raised by it.
pub append-Ends :
    (options : QueueOptions) (pending : ℕ) (c : Chunk) (q : Queue)
    → IsConsistent options q
    → Ends options c q (append options pending c q)
unfolding append
append-Ends o pending c q h = elim (Bool-cases malformed) [
  | inl e ↦ rw e (same_queue o c q invalid _ h (λ x. cc) refl)
  | inr e ↦ rw e (elim (Bool-cases too_large) [
    | inl f ↦ rw f (same_queue o c q backpressure _ h (λ x. cc) refl)
    | inr f ↦ rw f (elim (Bool-cases (leb 4 pending)) [
      | inl g ↦ rw g (same_queue o c q backpressure _ h (λ x. cc) refl)
      | inr g ↦ rw g (append_transaction-Ends o c q h (ground arith))
    ])
  ])
]
  where
    malformed : Bool
    malformed =
        not (leb c.sequence max_safe_integer)
        || not (digest c.checkpoint_digest)
        || length c.payload == 0

    too_large : Bool
    too_large =
        ltb o.limits.max_item_bytes (length c.payload)
        || ltb (o.limits.max_bytes - o.limits.reserved_bytes) (length c.payload)

same_payload_refl : (c : Chunk) → same_payload c c ≡ true
unfolding same_payload
same_payload_refl c = ground (arith, text_eq_refl c.checkpoint_digest, text_eq_refl c.payload)

found_mem :
    (l : PayloadQueueLimits) (c : Chunk) (n : ℕ) (cs : List Chunk)
    → Contiguous l n cs
    → Memᴰ c cs
    → (chunk_at c.sequence cs ≡ some c)
      × ChunkFits l c
      × (n ≤ c.sequence)
      × (c.sequence < n + length cs)
      × (length c.payload ≤ total_bytes cs)
found_mem l c n [] h m = elim m [ ]
found_mem l c n (d ∷ cs) h (Memᴰ.head e) =
    subst
      (λ (x : Chunk).
        (chunk_at x.sequence (d ∷ cs) ≡ some x)
        × ChunkFits l x
        × (n ≤ x.sequence)
        × (x.sequence < n + length (d ∷ cs))
        × (length x.payload ≤ total_bytes (d ∷ cs)))
      (sym e)
      (let first = h.0 in
        (ground arith, h.1, omega (arith, first), omega (arith, first), omega arith))
found_mem l c n (d ∷ cs) h (Memᴰ.tail m) =
    let (found, fits, low, high, bytes) = found_mem l c (n + 1) cs h.2 m in
    let first = h.0 in
    (
      ground (arith, found, first, low),
      fits,
      omega (arith, low),
      omega (arith, high),
      omega (arith, bytes),
    )

-- A chunk that a consistent queue holds, whether it was stored last or long before, is a duplicate
-- when it is appended again, with fewer than four appends under way, and the queue does not change.
pub append-retry :
    (options : QueueOptions) (pending : ℕ) (c : Chunk) (q : Queue)
    → IsConsistent options q
    → Memᴰ c q.chunks
    → pending < 4
    → append options pending c q ≡ ok (duplicate, q)
unfolding append append_transaction payload_queue_limits_valid
append-retry o pending c q h m few =
    let (found, fits, low, high, bytes) =
      found_mem q.meta.limits c q.meta.first_sequence q.chunks h.contiguous m in
    let same = same_payload_refl c in
    let size : length c.payload ≤ o.limits.max_item_bytes =
      subst (λ (l : PayloadQueueLimits). length c.payload ≤ l.max_item_bytes) h.limits_kept
        fits.2 in
    let room : length c.payload + o.limits.reserved_bytes ≤ o.limits.max_bytes =
      subst (λ (l : PayloadQueueLimits). length c.payload + l.reserved_bytes ≤ l.max_bytes)
        h.limits_kept (omega (arith, bytes, h.bytes, h.bytes_within)) in
    ground (arith, found, fits, low, high, same, size, room, few, h.next, h.next_safe)
