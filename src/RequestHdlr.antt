-- ===== src/RequestHdlr.antt =====
-- The request handler, merry/merry_request_hdlr.c: the queue of requests between the cores and the
-- operating system of the machine, under one mutex. A function is one step under the mutex; what it
-- asks of the threads is a list of effects. Only a core's wait gives the mutex up in between, as its
-- last action.
pub mod Laws
pub mod Kill
mod Tests
use merry_v.Common.{
  ℕ, zero, suc, ◌+◌, Bool, true, false, Option, none, some, List, [], ◌∷◌, ◌++◌, if◌then◌else◌, ltb,
  ◌==◌,
}
use merry_v.Queue.{Queue, Request, push_request, pop_request, panic_push}
use merry_v.Queue

-- `signal` wakes a core (nothing for NULL), `signal_host` the operating system; `wait` puts the
-- calling core to sleep on its condition variable.
pub data Effect : Type 0 where
  signal_host : Effect
  signal : Option ℕ → Effect
  wait : Option ℕ → Effect

pub record RequestHdlr : Type 0 where
  pub queue : Queue
  pub handle_more : Bool

-- _PANIC_REQBUFFEROVERFLOW
abbrev pub panic_reqbufferoverflow : ℕ
panic_reqbufferoverflow = 1

-- `merry_requestHdlr_init`; the flag is the outcome of the mutex.
unfoldable pub init : Option Queue → Bool → Option RequestHdlr
init none lock_ok = none
init (some queue) lock_ok =
    if lock_ok then some (record { queue = queue; handle_more = true }) else none

-- `if (req_hdlr.queue->data_count == 1) merry_cond_signal(req_hdlr.host_cond);`
abbrev pub wake_host : Queue → List Effect
wake_host q = if q.data_count == 1 then signal_host ∷ [] else []

unfoldable pub push_request_hdlr : RequestHdlr → ℕ → ℕ → Option ℕ → Bool × List Effect × RequestHdlr
push_request_hdlr h req_id id req_cond =
    if h.handle_more
    then (let (pushed, q) = Queue.push_request h.queue req_cond req_id id in
        if pushed
        then (true, wake_host q ++ (wait req_cond ∷ []), record h { queue = q })
        else (let q' = panic_push q panic_reqbufferoverflow in
            (false, wake_host q', record h { queue = q' })))
    else (true, [], h)

-- The loop of `merry_requestHdlr_kill_requests` in round `i`; `request` is what the last pop left.
-- Every round raises `i`, so the fuel is not used up if it is the number of stored values at first.
unfoldable pub kill_loop : ℕ → ℕ → Option Request → Queue → List Effect × Queue
kill_loop zero i request q = ([], q)
kill_loop (suc fuel) i request q =
    let (popped, out, q') = pop_request q in
    let request' : Option Request = elim out [ none ↦ request | some r ↦ some r ] in
    let lock : Option ℕ = elim request' [ none ↦ none | some r ↦ r.wait_lock ] in
    let rest = kill_loop fuel (i + 1) request' q' in
    if ltb i q.data_count then (signal lock ∷ rest.0, rest.1) else ([], q)

unfoldable pub kill_requests : RequestHdlr → List Effect × RequestHdlr
unfolding kill_loop
kill_requests h =
    let (effects, q) = kill_loop (suc h.queue.data_count) 0 none h.queue in
    (effects, record h { queue = q })

unfoldable pub panic : RequestHdlr → ℕ → List Effect × RequestHdlr
panic h error =
    if h.handle_more
    then (let q = panic_push h.queue error in
        (wake_host q, record { queue = q; handle_more = false }))
    else ([], h)

unfoldable pub pop_request_hdlr : RequestHdlr → Bool × Option Request × RequestHdlr
pop_request_hdlr h =
    let (popped, out, q) = pop_request h.queue in (popped, out, record h { queue = q })
