-- ===== src/PayloadPool/Tests.antt =====
-- A reserved queue beside one that fills the pool, and the theorems at them.
use converge_audit.Prelude.{
  ℕ, ◌≡◌, refl, Bool, true, false, none, some, [], ◌∷◌, arith, Result, ok, err,
}
use converge_audit.Prelude.Text.{Text, codes, text_eq}
use converge_audit.PayloadQueue.Budget.{
  PayloadQueueLimits, payload_queue_limits_valid, payload_admission_allowed, admits,
}
use converge_audit.PayloadQueue.Store.{Chunk, AppendOutcome, stored, backpressure, same_payload}
use converge_audit.PayloadPool.Scopes.{
  Capacity, Scope, Pool, find_scope, put_scope, delete_scope, registers_scope, reserves, sum,
}
use converge_audit.PayloadPool.Store.{
  ScopeOptions, Reservation, PoolFault, reservation_capacity_exhausted, open_scope, reserve,
  append_pooled, append_scoped,
}
use converge_audit.PayloadPool.Accounts.{Accounts}
use converge_audit.PayloadPool.Reached.{
  empty_pool, opens, reservation, appends, Reached, created, after, reached-Accounts,
}
use converge_audit.PayloadPool.Reserved.{reserved_append_stored}

abbrev limits : PayloadQueueLimits
limits = record { max_bytes = 12; max_items = 4; max_item_bytes = 6; reserved_bytes = 2 }

abbrev options_of : Text → ScopeOptions
options_of q = record {
  queue_id = q;
  limits = limits;
  verify_prune_grant = λ g. true;
  verify_closure_grant = none;
}

abbrev digest_a : Text
digest_a = codes "aaaaaaaaaaaaaaaaaaaaaaaaaaaaaaaaaaaaaaaaaaaaaaaaaaaaaaaaaaaaaaaa"

abbrev chunk : ℕ → Chunk
chunk n = record { sequence = n; checkpoint_digest = digest_a; payload = 1 ∷ 2 ∷ 3 ∷ 4 ∷ [] }

abbrev pool_of : {A : Type 0} → Result PoolFault (A × Pool) → Pool
pool_of (err e) = empty_pool limits 2
pool_of (ok (a, p)) = p

abbrev answer_of : {A : Type 0} → A → Result PoolFault (A × Pool) → A
answer_of d (err e) = d
answer_of d (ok (a, p)) = a

abbrev is_ok : {A : Type 0} → Result PoolFault A → Bool
is_ok (err e) = false
is_ok (ok a) = true

ended :
    {A : Type 0} (d : A) (r : Result PoolFault (A × Pool))
    → is_ok r ≡ true
    → r ≡ ok (answer_of d r, pool_of r)
ended d (err e) h = cc
ended d (ok (a, p)) h = refl

run_of_pool : ℕ → ℕ
unfolding text_eq payload_queue_limits_valid payload_admission_allowed admits same_payload
    find_scope put_scope delete_scope registers_scope reserves sum open_scope reserve append_pooled
    append_scoped
run_of_pool n = n

abbrev credit : Reservation
credit = record { bytes = 6; items = 2 }

abbrev reserve_call : Result PoolFault (ℕ × Pool)
reserve_call = reserve (options_of (codes "q")) credit (empty_pool limits 2)

abbrev open_call : Result PoolFault (ℕ × Pool)
open_call = open_scope (options_of (codes "p")) none (pool_of reserve_call)

abbrev append_call : Result PoolFault (AppendOutcome × Pool)
append_call = append_pooled (options_of (codes "p")) 2 0 (chunk 0) (pool_of open_call)

abbrev pool : Pool
pool = pool_of append_call

reached : Reached limits 2 pool
unfolding run_of_pool
reached =
    after
      (after
        (after created (reservation (options_of (codes "q")) credit (ended 0 reserve_call refl)))
        (opens (options_of (codes "p")) (ended 0 open_call refl)))
      (appends (options_of (codes "p")) 2 0 (chunk 0) (ended stored append_call refl))

appended : answer_of backpressure append_call ≡ stored
unfolding run_of_pool
appended = refl

-- The other queue has had all the room beside the credit.
full : append_pooled (options_of (codes "p")) 2 0 (chunk 1) pool ≡ ok (backpressure, pool)
unfolding run_of_pool
full = refl

no_more_credit :
    reserve (options_of (codes "p")) credit (pool_of open_call) ≡ err reservation_capacity_exhausted
unfolding run_of_pool
no_more_credit = refl

reached-Accounts_example : Accounts pool
unfolding run_of_pool
reached-Accounts_example = reached-Accounts limits 2 pool refl reached

abbrev capacity : Capacity
capacity = record { total_bytes = 6; total_items = 2; remaining_bytes = 6; remaining_items = 2 }

abbrev scope : Scope
scope = record {
  queue_id = codes "q";
  limits = limits;
  incarnation = 1;
  used_bytes = 0;
  item_count = 0;
  first_sequence = 0;
  next_sequence = 0;
  revision = 1;
  last_pruned_digest = none;
  capacity = some capacity;
}

reserved_append_stored_example :
    (next : Pool) × (append_pooled (options_of (codes "q")) 1 0 (chunk 0) pool ≡ ok (stored, next))
unfolding run_of_pool
reserved_append_stored_example =
    reserved_append_stored limits 2 pool (options_of (codes "q")) scope capacity 0 (chunk 0) refl
      reached refl refl refl refl refl (omega arith) (omega arith) (omega arith) (omega arith)
      (omega arith) (omega arith) (omega arith) refl
