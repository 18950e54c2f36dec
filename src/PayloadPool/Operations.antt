-- ===== src/PayloadPool/Operations.antt =====
-- Every call on the pool keeps its accounts
-- (examples/cf-game-audit/web/src/audit/payload-pool.ts).
use converge_audit.Prelude.{
  ℕ, ◌+◌, ◌-◌, ◌≡◌, sym, ap, subst, ◌∙◌, Bool, true, not, ◌&&◌, ◌||◌, ltb, leb, Option, none, some,
  length, take, ◌==◌, arith, Bool-cases, Option-cases, ◌⊎◌, inl, inr, ok, err,
}
use converge_audit.Prelude.Text.{Text, text_eq, max_safe_integer, safe_non_negative_integer}
use converge_audit.PayloadQueue.Budget.{payload_queue_limits_valid, admits, admits_room}
use converge_audit.PayloadQueue.Store.{
  max_batch, digest, sequences_from, last_digest_is, Chunk, Grant, AppendOutcome, total_bytes,
  chunk_at,
}
use converge_audit.PayloadPool.Scopes.{Scope, Pool, find_scope, find_scope_id}
use converge_audit.PayloadPool.Store.{
  too_large, queue_released, ScopeOptions, Reservation, ScopeClosureGrant, PoolFault, RemoveOutcome,
  reopen, open_scope, reserve, scoped, has_room, store_scoped, append_scoped, append_pooled,
}
use converge_audit.PayloadPool.Removal.{
  closure_verified, digest_is, remove_accepted, release_scoped, pruned_chunks, removed_count,
  prune_scoped, remove_scoped, remove, release_empty_scoped, release_empty, closed_pool,
  remove_closed_scoped, remove_closed,
}
use converge_audit.PayloadPool.Accounts.{Accounts}
use converge_audit.PayloadPool.Kept.{without-Accounts, closed-Accounts}
use converge_audit.PayloadPool.Transactions.{
  Fits, store-Accounts, pruned-Accounts, register_fresh-Accounts, register_again-Accounts,
}

scoped-cases :
    (q : Text) (n : ℕ) (pool : Pool)
    → ((e : PoolFault) × (scoped q n pool ≡ err e))
      ⊎ ((s : Scope) × (scoped q n pool ≡ ok s)
          × (find_scope s.queue_id pool.scopes ≡ some s)
          × (find_scope q pool.scopes ≡ some s))
scoped-cases q n pool = elim (Option-cases (find_scope q pool.scopes)) [
  | inl e ↦ inl (queue_released, ground (arith, e))
  | inr (s, e) ↦ elim (Bool-cases (s.incarnation == n)) [
    | inl t ↦ inr (
      s,
      ground (arith, e, t),
      subst (λ p. find_scope p pool.scopes ≡ some s) (sym (find_scope_id q pool.scopes s e)) e,
      e,
    )
    | inr f ↦ inl (queue_released, ground (arith, e, f))
  ]
]

-- Either nothing is written, or the chunk is stored in the room that it has.
append_scoped-cases :
    (pool next : Pool) (s : Scope) (chunk : Chunk) (o : AppendOutcome)
    → append_scoped s chunk pool ≡ ok (o, next)
    → (pool ≡ next)
      ⊎ ((admits s.limits s.used_bytes s.item_count (length chunk.payload) ≡ true)
          × (has_room s.capacity pool.meta (length chunk.payload) ≡ true)
          × (store_scoped s chunk pool ≡ ok (o, next)))
unfolding append_scoped
append_scoped-cases pool next s chunk o h = elim (Bool-cases (ltb chunk.sequence s.next_sequence)) [
  | inl t ↦ elim (Option-cases (chunk_at chunk.sequence (pool.chunks s.queue_id))) [
    | inl e ↦ inl (ground (arith, h, t, e))
    | inr (c, e) ↦ inl (ground (arith, h, t, e))
  ]
  | inr t ↦
      elim (Bool-cases (
        chunk.sequence == s.next_sequence
        && not (ltb chunk.sequence s.first_sequence)
        && not (
            pool.meta.revision == max_safe_integer
            || s.next_sequence == max_safe_integer
            || not (admits s.limits s.used_bytes s.item_count (length chunk.payload)))
        && has_room s.capacity pool.meta (length chunk.payload))) [
          | inl u ↦ inr (ground (arith, u), ground (arith, u), ground (arith, h, t, u))
          | inr u ↦ inl (ground (arith, h, t, u))
        ]
]

append_scoped-Accounts :
    (pool next : Pool) (s : Scope) (chunk : Chunk) (o : AppendOutcome)
    → Accounts pool
    → find_scope s.queue_id pool.scopes ≡ some s
    → append_scoped s chunk pool ≡ ok (o, next)
    → Accounts next
append_scoped-Accounts pool next s chunk o g f h =
    elim (append_scoped-cases pool next s chunk o h) [
      | inl same ↦ subst Accounts same g
      | inr (room, paid, wrote) ↦
          let (pos, item, count, all_bytes) =
            admits_room s.limits s.used_bytes s.item_count (length chunk.payload) room in
          store-Accounts pool next s chunk o g f pos paid wrote
    ]

pub append_pooled-Accounts :
    (pool next : Pool) (options : ScopeOptions) (incarnation pending : ℕ) (chunk : Chunk)
    (o : AppendOutcome)
    → Accounts pool
    → append_pooled options incarnation pending chunk pool ≡ ok (o, next)
    → Accounts next
unfolding append_pooled
append_pooled-Accounts pool next options incarnation pending chunk o g h =
    elim (Bool-cases (
      not (safe_non_negative_integer chunk.sequence)
      || not (digest chunk.checkpoint_digest)
      || length chunk.payload == 0
      || leb 4 pending
      || too_large options.limits (length chunk.payload)
      || too_large pool.meta.limits (length chunk.payload))) [
        | inl t ↦ subst Accounts (ground (arith, h, t)) g
        | inr t ↦ elim (scoped-cases options.queue_id incarnation pool) [
          | inl (e, q) ↦ absurd (ground (arith, h, t, q))
          | inr (s, q, f, k) ↦
              append_scoped-Accounts pool next s chunk o g f (ground (arith, h, t, q))
        ]
      ]

prune_scoped-Accounts :
    (pool next : Pool) (s : Scope) (grant : Grant) (o : RemoveOutcome)
    → Accounts pool
    → find_scope s.queue_id pool.scopes ≡ some s
    → prune_scoped grant s pool ≡ ok (o, next)
    → Accounts next
unfolding prune_scoped
prune_scoped-Accounts pool next s grant o g f h =
    elim (Bool-cases (
      not (ltb grant.through_sequence s.first_sequence)
      && not (leb s.next_sequence grant.through_sequence)
      && not (ltb s.used_bytes (total_bytes (pruned_chunks grant s pool))))) [
        | inl t ↦
            let kept =
              pruned-Accounts pool s grant g f (ground (arith, t)) (ground (arith, t))
                (ground (arith, t)) in
            elim (Bool-cases (
              ltb max_batch (removed_count grant s)
              || not (length (pruned_chunks grant s pool) == removed_count grant s)
              || not (sequences_from s.first_sequence (pruned_chunks grant s pool))
              || not
                  (last_digest_is grant.through_checkpoint_digest (pruned_chunks grant s pool)))) [
                    | inl u ↦ subst Accounts (ground (arith, h, t, u)) g
                    | inr u ↦ subst Accounts (ground (arith, h, t, u)) kept
                  ]
        | inr t ↦ subst Accounts (ground (arith, h, t)) g
      ]

release_scoped-Accounts :
    (pool : Pool) (s : Scope) (grant : Grant)
    → Accounts pool
    → find_scope s.queue_id pool.scopes ≡ some s
    → Accounts (release_scoped grant s pool).1
unfolding release_scoped
release_scoped-Accounts pool s grant g f =
    elim (Bool-cases (
      not (s.item_count == 0)
      || not (s.used_bytes == 0)
      || s.next_sequence == 0
      || not (s.first_sequence == s.next_sequence)
      || not (grant.through_sequence == s.next_sequence - 1)
      || not (digest_is grant.through_checkpoint_digest s.last_pruned_digest))) [
        | inl t ↦ rw t g
        | inr t ↦ rw t (without-Accounts pool s g f (ground (arith, t)) (ground (arith, t)))
      ]

pub remove-Accounts :
    (pool next : Pool) (options : ScopeOptions) (incarnation : ℕ) (release : Bool) (grant : Grant)
    (o : RemoveOutcome)
    → Accounts pool
    → remove options incarnation release grant pool ≡ ok (o, next)
    → Accounts next
unfolding remove remove_scoped
remove-Accounts pool next options incarnation release grant o g h =
    elim (Bool-cases (remove_accepted options grant)) [
      | inr t ↦ subst Accounts (ground (arith, h, t)) g
      | inl t ↦ elim (scoped-cases options.queue_id incarnation pool) [
        | inl (e, q) ↦ absurd (ground (arith, h, t, q))
        | inr (s, q, f, k) ↦
            elim (Bool-cases (
              not (s.revision == grant.expected_revision)
              || pool.meta.revision == max_safe_integer)) [
                | inl u ↦ subst Accounts (ground (arith, h, t, q, u)) g
                | inr u ↦ elim (Bool-cases release) [
                  | inl w ↦
                      subst Accounts (ground (arith, h, t, q, u, w))
                        (release_scoped-Accounts pool s grant g f)
                  | inr w ↦
                      prune_scoped-Accounts pool next s grant o g f (ground (arith, h, t, q, u, w))
                ]
              ]
      ]
    ]

pub release_empty-Accounts :
    (pool next : Pool) (options : ScopeOptions) (incarnation : ℕ) (o : RemoveOutcome)
    → Accounts pool
    → release_empty options incarnation pool ≡ ok (o, next)
    → Accounts next
unfolding release_empty release_empty_scoped
release_empty-Accounts pool next options incarnation o g h =
    elim (scoped-cases options.queue_id incarnation pool) [
      | inl (e, q) ↦ absurd (ground (arith, h, q))
      | inr (s, q, f, k) ↦
          elim (Bool-cases (
            not (s.next_sequence == 0)
            || not (s.item_count == 0)
            || not (s.used_bytes == 0)
            || pool.meta.revision == max_safe_integer)) [
              | inl u ↦ subst Accounts (ground (arith, h, q, u)) g
              | inr u ↦
                  subst Accounts (ground (arith, h, q, u))
                    (without-Accounts pool s g f (ground (arith, u)) (ground (arith, u)))
            ]
    ]

remove_closed_scoped-Accounts :
    (pool next : Pool) (s : Scope) (grant : ScopeClosureGrant) (o : RemoveOutcome)
    → Accounts pool
    → find_scope s.queue_id pool.scopes ≡ some s
    → remove_closed_scoped grant s pool ≡ ok (o, next)
    → Accounts next
unfolding remove_closed_scoped
remove_closed_scoped-Accounts pool next s grant o g f h =
    elim (Bool-cases (
      not (s.revision == grant.expected_revision)
      || not (s.next_sequence == grant.next_sequence)
      || ltb max_batch s.item_count
      || pool.meta.revision == max_safe_integer)) [
        | inl t ↦ subst Accounts (ground (arith, h, t)) g
        | inr t ↦
            let bytes = total_bytes (take (max_batch + 1) (pool.chunks s.queue_id)) in
            let same : bytes ≡ s.used_bytes = ground (arith, h, t) in
            subst Accounts (ap (λ b. closed_pool s b pool) (sym same) ∙ ground (arith, h, t))
              (closed-Accounts pool s g f)
      ]

pub remove_closed-Accounts :
    (pool next : Pool) (options : ScopeOptions) (incarnation : ℕ) (grant : ScopeClosureGrant)
    (o : RemoveOutcome)
    → Accounts pool
    → remove_closed options incarnation grant pool ≡ ok (o, next)
    → Accounts next
unfolding remove_closed
remove_closed-Accounts pool next options incarnation grant o g h =
    elim (Bool-cases (
      not (text_eq grant.queue_id options.queue_id)
      || not (safe_non_negative_integer grant.expected_revision)
      || not (safe_non_negative_integer grant.next_sequence)
      || not (digest grant.closure_id)
      || ltb 16384 (length grant.authorization)
      || not (closure_verified options grant))) [
        | inl t ↦ subst Accounts (ground (arith, h, t)) g
        | inr t ↦ elim (scoped-cases options.queue_id incarnation pool) [
          | inl (e, q) ↦ absurd (ground (arith, h, t, q))
          | inr (s, q, f, k) ↦
              remove_closed_scoped-Accounts pool next s grant o g f (ground (arith, h, t, q))
        ]
      ]

-- `openScope`, for a reservation that fits its queue.
open_scope-Accounts :
    (pool next : Pool) (options : ScopeOptions) (r : Option Reservation) (n : ℕ)
    → Accounts pool
    → Fits options r
    → open_scope options r pool ≡ ok (n, next)
    → Accounts next
unfolding open_scope
open_scope-Accounts pool next options r n g fits h =
    let valid : payload_queue_limits_valid options.limits ≡ true = ground (arith, h) in
    elim (Option-cases (find_scope options.queue_id pool.scopes)) [
      | inl e ↦ register_fresh-Accounts options r pool next n g valid fits e (ground (arith, h, e))
      | inr (s, e) ↦ reopened r s fits e (ground (arith, h, e))
    ]
  where
    reopened :
        (r : Option Reservation) (s : Scope)
        → Fits options r
        → find_scope options.queue_id pool.scopes ≡ some s
        → reopen options r s pool ≡ ok (n, next)
        → Accounts next
    reopened none s fits e k = subst Accounts (ground (arith, k)) g
    reopened (some r) s fits e k =
        let valid : payload_queue_limits_valid options.limits ≡ true =
          unfold open_scope in ground (arith, h) in
        elim (Option-cases s.capacity) [
          | inl c ↦
              register_again-Accounts options r s pool next n g valid fits e c
                (ground (arith, k, c)) (ground (arith, k, c))
          | inr (c, q) ↦ subst Accounts (ground (arith, k, q)) g
        ]

pub open_unreserved-Accounts :
    (pool next : Pool) (options : ScopeOptions) (n : ℕ)
    → Accounts pool
    → open_scope options none pool ≡ ok (n, next)
    → Accounts next
open_unreserved-Accounts pool next options n g h =
    open_scope-Accounts pool next options none n g tt h

pub reserve-Accounts :
    (pool next : Pool) (options : ScopeOptions) (r : Reservation) (n : ℕ)
    → Accounts pool
    → reserve options r pool ≡ ok (n, next)
    → Accounts next
unfolding reserve
reserve-Accounts pool next options r n g h =
    open_scope-Accounts pool next options (some r) n g (ground (arith, h)) (ground (arith, h))
