-- ===== src/PayloadQueue/Tests.antt =====
-- A queue with two chunks, and the theorems at it.
use converge_audit.Prelude.{
  ℕ, ◌≡◌, ◌≢◌, ◌⊎◌, ◌↔◌, refl, true, false, some, none, [], ◌∷◌, arith, ok, Memᴰ, insert_by,
}
use converge_audit.Prelude.Text.{Text, codes, text_eq}
use converge_audit.PayloadQueue.Budget.{
  PayloadQueueLimits, payload_queue_limits_valid, admits, payload_prunable,
}
use converge_audit.PayloadQueue.Store.{
  Chunk, Queue, Grant, QueueOptions, PruneOutcome, stored, duplicate, append, append_transaction,
  prune, grant_accepted, prune_transaction, removable,
}
use converge_audit.PayloadQueue.Reopen.{configure_and_validate}
use converge_audit.PayloadQueue.Consistent.{IsConsistent, reopen_iff}
use converge_audit.PayloadQueue.Appends.{Ends, append-Ends, append-retry, with_chunk}
use converge_audit.PayloadQueue.Prunes.{Pruned, prune-cases}

abbrev limits : PayloadQueueLimits
limits = record { max_bytes = 100; max_items = 4; max_item_bytes = 10; reserved_bytes = 20 }

abbrev options : QueueOptions
options = record { queue_id = codes "q"; limits = limits; verify_prune_grant = λ g. true }

abbrev digest_a : Text
digest_a = codes "aaaaaaaaaaaaaaaaaaaaaaaaaaaaaaaaaaaaaaaaaaaaaaaaaaaaaaaaaaaaaaaa"

abbrev chunk : ℕ → Chunk
chunk n = record { sequence = n; checkpoint_digest = digest_a; payload = 1 ∷ 2 ∷ 3 ∷ [] }

abbrev queue : Queue
queue = record {
  meta = record {
    queue_id = codes "q";
    limits = limits;
    used_bytes = 6;
    item_count = 2;
    first_sequence = 5;
    next_sequence = 7;
    revision = 9;
  };
  chunks = chunk 5 ∷ chunk 6 ∷ [];
}

queue-IsConsistent : IsConsistent options queue
unfolding payload_queue_limits_valid
queue-IsConsistent = record {
  owned = refl;
  limits_kept = refl;
  limits_valid = refl;
  counted = refl;
  next = refl;
  bytes = refl;
  contiguous = ground arith;
  items_within = omega arith;
  bytes_within = omega arith;
  next_safe = omega arith;
  revision_safe = omega arith;
}

append_stored : append options 0 (chunk 7) queue ≡ ok (stored, with_chunk (chunk 7) queue)
unfolding append append_transaction admits insert_by
append_stored = refl

append-Ends_example : Ends options (chunk 7) queue (append options 0 (chunk 7) queue)
append-Ends_example = append-Ends options 0 (chunk 7) queue queue-IsConsistent

-- The earlier of the two chunks.
append-retry_example : append options 3 (chunk 5) queue ≡ ok (duplicate, queue)
append-retry_example =
    append-retry options 3 (chunk 5) queue queue-IsConsistent (Memᴰ.head refl) (omega arith)

abbrev grant : Grant
grant = record {
  queue_id = codes "q";
  expected_revision = 9;
  through_sequence = 5;
  through_checkpoint_digest = digest_a;
  delivery_acknowledged = true;
  gameplay_finalized = true;
  retention_closed = true;
  unresolved_reference = false;
  authorization = codes "final";
}

prune_removes : (prune options grant queue).1.chunks ≡ chunk 6 ∷ []
unfolding prune grant_accepted prune_transaction removable payload_prunable text_eq
prune_removes = refl

prune-cases_example :
    IsConsistent options (prune options grant queue).1
    × (((prune options grant queue).1 ≡ queue)
          × ((prune options grant queue).0 ≢ PruneOutcome.pruned)
        ⊎ ((prune options grant queue).0 ≡ PruneOutcome.pruned)
          × Pruned options grant queue (prune options grant queue).1)
prune-cases_example = prune-cases options grant queue queue-IsConsistent

reopen_iff_example :
    ((configure_and_validate options (some (queue.meta)) queue.chunks ≡ some queue)
      ↔ IsConsistent options queue)
    × ((configure_and_validate options (some (queue.meta)) queue.chunks ≡ none)
        ⊎ (configure_and_validate options (some (queue.meta)) queue.chunks ≡ some queue))
reopen_iff_example = reopen_iff options queue
