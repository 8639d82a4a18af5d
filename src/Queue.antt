-- ===== src/Queue.antt =====
-- The request queue: merry/merry_request_queue.c over the circular linked list of
-- merry/tools/merry_queue.h. A node is named by the order of its allocation; `next` and `value` are
-- the two fields of each node.
pub mod Build
pub mod Fifo
pub mod Panic
mod Tests
use merry_v.Common.{
  ℕ, zero, suc, ◌+◌, ◌-◌, Bool, true, false, Option, none, some, if◌then◌else◌, ◌==◌, update, wrap,
}

-- `MerryOSRequest`; the lock is the requesting core's condition variable, `none` for NULL.
pub record Request : Type 0 where
  pub request_number : ℕ
  pub wait_lock : Option ℕ
  pub id : ℕ

pub record Queue : Type 0 where
  pub node_count : ℕ
  pub data_count : ℕ
  pub head : ℕ
  pub tail : ℕ
  pub next : ℕ → ℕ
  pub value : ℕ → Request

abbrev pub is_queue_empty : Queue → Bool
is_queue_empty q = q.data_count == 0

abbrev pub is_queue_full : Queue → Bool
is_queue_full q = q.data_count == q.node_count

-- The loop of _MERRY_QUEUE_CREATE_NODES_NOPTR_ with `n` rounds left: node `current` is the last one
-- so far. The `break` behind a failed malloc leaves this loop only. The result is the last node.
unfoldable pub link_nodes : (ℕ → Bool) → ℕ → ℕ → (ℕ → ℕ) → ℕ × (ℕ → ℕ)
link_nodes node_ok zero current next = (current, next)
link_nodes node_ok (suc n) current next =
    if node_ok (current + 1)
    then link_nodes node_ok n (current + 1) (update next current (current + 1))
    else (current, next)

-- `merry_request_queue_init`: malloc of the queue, and malloc of each node. The last node made is
-- linked to the head, whatever ended the loop.
unfoldable pub init : Bool → (ℕ → Bool) → (ℕ → ℕ) → (ℕ → Request) → ℕ → Option Queue
unfolding link_nodes
init queue_ok node_ok next value number_of_requests =
    if queue_ok
    then (if node_ok 0
        then (let (last, next') = link_nodes node_ok number_of_requests 0 next in
            some (record {
              node_count = number_of_requests;
              data_count = 0;
              head = 0;
              tail = 0;
              next = update next' last 0;
              value = value;
            }))
        else none)
    else none

-- `merry_push_request` with _MERRY_QUEUE_PUSH_NOPTR_
unfoldable pub push_request : Queue → Option ℕ → ℕ → ℕ → Bool × Queue
push_request q req_cond req_num id = if is_queue_full q then (false, q) else (
  true,
  record q {
    value =
        update q.value q.tail (record { request_number = req_num; wait_lock = req_cond; id = id });
    data_count = wrap (q.data_count + 1);
    tail = q.next q.tail;
  },
)

-- `merry_pop_request` with _MERRY_QUEUE_POP_NOPTR_; the request popped goes through `dest`.
unfoldable pub pop_request : Queue → Bool × Option Request × Queue
pop_request q = if is_queue_empty q then (false, none, q) else (
  true,
  some (q.value q.head),
  record q { head = q.next q.head; data_count = q.data_count - 1 },
)

-- `merry_panic_push` with _MERRY_QUEUE_PANIC_PUSH_NOPTR_: the head's value is replaced.
unfoldable pub panic_push : Queue → ℕ → Queue
panic_push q error = record q {
  value = update q.value q.head (record { request_number = error; wait_lock = none; id = 0 });
  data_count = wrap (q.data_count + 1);
}
