-- ===== src/RequestHdlr/Kill.antt =====
-- `merry_requestHdlr_kill_requests` of merry/merry_request_hdlr.c is meant to wake every waiting
-- core. Its loop counts up while the number of stored requests, its bound, goes down.
use merry_v.Common.{
  ℕ, zero, suc, ◌+◌, ◌-◌, ◌/◌, ◌<◌, ◌≡◌, refl, ap, Option, none, some, ◌∷◌, map, arith, ltb,
  Bool-cases, inl, inr, take, drop,
}
use merry_v.Queue.{Queue, Request, pop_request}
use merry_v.Queue.Fifo.{IsRing, contents, pop_request-some, pop_request-IsRing}
use merry_v.RequestHdlr.{RequestHdlr, Effect, signal, kill_loop, kill_requests}

abbrev pub wake : Request → Effect
wake r = signal r.wait_lock

-- From round `i` on the loop takes half of what its counter has not reached.
abbrev rounds : ℕ → ℕ → ℕ
rounds i k = (k - i + 1) / 2

pub kill_loop-half :
    (fuel i : ℕ) (request : Option Request) {q : Queue} (n : ℕ)
    → IsRing q
    → q.data_count < fuel
    → n ≡ rounds i q.data_count
    → let (effects, q') = kill_loop fuel i request q in
      (effects ≡ map wake (take n (contents q))) × (contents q' ≡ drop n (contents q)) × IsRing q'
unfolding kill_loop
kill_loop-half zero i request n r lt e = absurd (omega arith)
kill_loop-half (suc fuel) i request {q} n r lt e = elim (Bool-cases (ltb i q.data_count)) [
  | inr ended ↦ let none_left : n ≡ 0 = ground arith in rw (ended, none_left) (refl, refl, r)
  | inl more ↦
      let (front, listed, count) = pop_request-some r (ground arith) in
      let left : n ≡ suc (n - 1) = ground arith in
      let (later, kept, ring) =
        kill_loop-half fuel (i + 1) (some (q.value q.head)) {q = (pop_request q).2} (n - 1)
          (pop_request-IsRing r) (omega arith) (ground arith) in
      rw (more, front, left, listed) (ap (λ l. wake (q.value q.head) ∷ l) later, kept, ring)
]

-- Of the cores waiting in a ring `merry_requestHdlr_kill_requests` wakes the first half,
-- rounded up; the requests of the others stay in the queue, in order.
pub kill_requests-half :
    (h : RequestHdlr)
    → IsRing h.queue
    → let n = (h.queue.data_count + 1) / 2 in
      let (effects, h') = kill_requests h in
      (effects ≡ map wake (take n (contents h.queue)))
      × (contents h'.queue ≡ drop n (contents h.queue))
unfolding kill_requests
kill_requests-half h r =
    let (effects, left, ring) =
      kill_loop-half (suc h.queue.data_count) 0 none ((h.queue.data_count + 1) / 2) r (omega arith)
        (omega arith) in
    (effects, left)
