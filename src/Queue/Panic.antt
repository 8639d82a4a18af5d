-- ===== src/Queue/Panic.antt =====
-- The emergency push of merry/merry_request_queue.c (`merry_panic_push`): it replaces the oldest
-- request and counts one value more, without moving the tail.
use merry_v.Common.{ℕ, ◌+◌, ◌<◌, ◌≡◌, true, Option, none, some, arith, word_mod}
use merry_v.Queue.{Queue, Request, push_request, pop_request, panic_push}
use merry_v.Queue.Fifo.{IsRing}

abbrev pub panic_request : ℕ → Request
panic_request error = record { request_number = error; wait_lock = none; id = 0 }

-- The next request popped is the panic, whatever the queue held.
pub pop_request-panic_push :
    {q : Queue} (error : ℕ)
    → IsRing q
    → q.node_count + 2 < word_mod
    → ((pop_request (panic_push q error)).0 ≡ true)
      × ((pop_request (panic_push q error)).1 ≡ some (panic_request error))
unfolding pop_request panic_push
pop_request-panic_push {q} error r small = (ground arith, ground arith)

-- On a full ring with a capacity below 2 ^ 64 - 2 a panic is counted above the capacity, and
-- the next push is accepted, to two more than the capacity.
pub push_request-panic_full :
    {q : Queue} (error : ℕ) (c : Option ℕ) (num id : ℕ)
    → IsRing q
    → q.node_count + 2 < word_mod
    → q.data_count ≡ q.node_count
    → ((push_request (panic_push q error) c num id).0 ≡ true)
      × ((push_request (panic_push q error) c num id).1.data_count ≡ q.node_count + 2)
unfolding push_request panic_push
push_request-panic_full {q} error c num id r small full = (ground arith, ground arith)

-- On an empty ring with a capacity above 1 a panic is lost to the next push: of the two
-- requests then counted the first that is popped is the one pushed.
pub pop_request-panic_empty :
    {q : Queue} (error : ℕ) (c : Option ℕ) (num id : ℕ)
    → IsRing q
    → q.data_count ≡ 0
    → 1 < q.node_count
    → (pop_request (push_request (panic_push q error) c num id).1).1
      ≡ some (record { request_number = num; wait_lock = c; id = id })
unfolding push_request pop_request panic_push
pop_request-panic_empty {q} error c num id r empty room = ground arith
