-- ===== src/PayloadQueue/Consistent.antt =====
-- What a consistent queue is, and that opening accepts exactly the consistent queues
-- (examples/cf-game-audit/web/src/audit/bounded-payload-queue.ts).
use converge_audit.Prelude.{
  ℕ, ◌+◌, ◌≤◌, ◌<◌, ◌≡◌, ◌↔◌, ◌⊎◌, true, none, some, List, [], ◌∷◌, arith, length,
}
use converge_audit.Prelude.Text.{text_eq_iff, max_safe_integer}
use converge_audit.PayloadQueue.Budget.{PayloadQueueLimits, payload_queue_limits_valid}
use converge_audit.PayloadQueue.Store.{Chunk, Metadata, Queue, QueueOptions, digest, total_bytes}
use converge_audit.PayloadQueue.Reopen.{configure_and_validate, metadata_valid, scan, same_limits}

-- A retained chunk: a digest, and bytes between one and the limit.
abbrev pub ChunkFits : PayloadQueueLimits → Chunk → Type 0
ChunkFits l c =
    (digest c.checkpoint_digest ≡ true)
    × (0 < length c.payload)
    × (length c.payload ≤ l.max_item_bytes)

-- The chunks carry the sequences from `n` on, and each fits.
abbrev pub Contiguous : PayloadQueueLimits → ℕ → List Chunk → Type 0
Contiguous l n [] = Unit
Contiguous l n (c ∷ cs) = (c.sequence ≡ n) × ChunkFits l c × Contiguous l (n + 1) cs

pub record IsConsistent (options : QueueOptions) (q : Queue) : Type 0 where
  pub owned : q.meta.queue_id ≡ options.queue_id
  pub limits_kept : q.meta.limits ≡ options.limits
  pub limits_valid : payload_queue_limits_valid q.meta.limits ≡ true
  pub counted : q.meta.item_count ≡ length q.chunks
  pub next : q.meta.next_sequence ≡ q.meta.first_sequence + length q.chunks
  pub bytes : q.meta.used_bytes ≡ total_bytes q.chunks
  pub contiguous : Contiguous q.meta.limits q.meta.first_sequence q.chunks
  pub items_within : q.meta.item_count ≤ q.meta.limits.max_items
  pub bytes_within : q.meta.used_bytes + q.meta.limits.reserved_bytes ≤ q.meta.limits.max_bytes
  pub next_safe : q.meta.next_sequence ≤ max_safe_integer
  pub revision_safe : q.meta.revision ≤ max_safe_integer

limits_eq : (a b : PayloadQueueLimits) → (same_limits a b ≡ true) ↔ (a ≡ b)
limits_eq a b = ground arith

limits_bound :
    (l : PayloadQueueLimits)
    → payload_queue_limits_valid l ≡ true
    → (l.reserved_bytes ≤ l.max_bytes) × (l.max_bytes ≤ 2147483647) × (l.max_items ≤ 2147483647)
unfolding payload_queue_limits_valid
limits_bound l h = ground arith

-- The cursor accepts exactly contiguous chunks that fit and add up.
scan_sound :
    (m : Metadata) (cs : List Chunk) (n b : ℕ)
    → scan m n b cs ≡ true
    → Contiguous m.limits n cs
      × (n + length cs ≡ m.next_sequence)
      × (b + total_bytes cs ≡ m.used_bytes)
unfolding scan
scan_sound m [] n b h = (tt, ground arith, ground arith)
scan_sound m (c ∷ cs) n b h =
    let (rest, count, sum) = scan_sound m cs (n + 1) (b + length c.payload) (ground arith) in
    ((ground arith, (ground arith, ground arith, ground arith), rest), omega arith, omega arith)

scan_complete :
    (m : Metadata) (cs : List Chunk) (n b : ℕ)
    → Contiguous m.limits n cs
    → n + length cs ≡ m.next_sequence
    → b + total_bytes cs ≡ m.used_bytes
    → scan m n b cs ≡ true
unfolding scan
scan_complete m [] n b h count sum = ground arith
scan_complete m (c ∷ cs) n b h count sum =
    let rest = scan_complete m cs (n + 1) (b + length c.payload) h.2 (omega arith) (omega arith) in
    let a = h.0 in let d = h.1 in ground arith

validate_iff :
    (o : QueueOptions) (q : Queue)
    → (configure_and_validate o (some (q.meta)) q.chunks ≡ some q)
      ↔ ((metadata_valid o q.meta ≡ true) × (scan q.meta q.meta.first_sequence 0 q.chunks ≡ true))
unfolding configure_and_validate
validate_iff o q = ground arith

validate_cases :
    (o : QueueOptions) (q : Queue)
    → (configure_and_validate o (some (q.meta)) q.chunks ≡ none)
      ⊎ (configure_and_validate o (some (q.meta)) q.chunks ≡ some q)
unfolding configure_and_validate
validate_cases o q = ground arith

IsConsistent-metadata :
    (o : QueueOptions) (q : Queue) → IsConsistent o q → metadata_valid o q.meta ≡ true
unfolding metadata_valid
IsConsistent-metadata o q c = ground (
  arith,
  (text_eq_iff q.meta.queue_id o.queue_id).1 c.owned,
  (limits_eq q.meta.limits o.limits).1 c.limits_kept,
  limits_bound q.meta.limits c.limits_valid,
)

metadata-IsConsistent :
    (o : QueueOptions) (q : Queue)
    → metadata_valid o q.meta ≡ true
    → Contiguous q.meta.limits q.meta.first_sequence q.chunks
    → q.meta.first_sequence + length q.chunks ≡ q.meta.next_sequence
    → total_bytes q.chunks ≡ q.meta.used_bytes
    → IsConsistent o q
unfolding metadata_valid
metadata-IsConsistent o q h c count sum =
    let lv : payload_queue_limits_valid q.meta.limits ≡ true = ground arith in
    let room = limits_bound q.meta.limits lv in
    record {
      owned = (text_eq_iff q.meta.queue_id o.queue_id).0 (ground arith);
      limits_kept = (limits_eq q.meta.limits o.limits).0 (ground arith);
      limits_valid = lv;
      counted = ground arith;
      next = ground arith;
      bytes = ground arith;
      contiguous = c;
      items_within = ground arith;
      bytes_within = ground arith;
      next_safe = ground arith;
      revision_safe = ground arith;
    }

-- Opening a stored queue accepts it unchanged exactly where it is consistent, and refuses it
-- elsewhere.
pub reopen_iff :
    (options : QueueOptions) (q : Queue)
    → ((configure_and_validate options (some (q.meta)) q.chunks ≡ some q) ↔ IsConsistent options q)
      × ((configure_and_validate options (some (q.meta)) q.chunks ≡ none)
          ⊎ (configure_and_validate options (some (q.meta)) q.chunks ≡ some q))
reopen_iff options q = ((sound, complete), validate_cases options q)
  where
    sound :
        configure_and_validate options (some (q.meta)) q.chunks ≡ some q → IsConsistent options q
    sound h =
        let (valid, scanned) = (validate_iff options q).0 h in
        let (contiguous, count, sum) = scan_sound q.meta q.chunks q.meta.first_sequence 0 scanned in
        metadata-IsConsistent options q valid contiguous count (omega arith)

    complete :
        IsConsistent options q → configure_and_validate options (some (q.meta)) q.chunks ≡ some q
    complete c = (validate_iff options q).1 (
      IsConsistent-metadata options q c,
      scan_complete q.meta q.chunks q.meta.first_sequence 0 c.contiguous (omega arith)
          (omega arith),
    )
