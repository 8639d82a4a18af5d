-- ===== src/RequestHdlr/Tests.antt =====
-- A concrete request handler, and the theorems of the handler at it.
use merry_v.Common.{
  ℕ, ◌+◌, ◌/◌, ◌≡◌, refl, true, some, [], ◌∷◌, ◌++◌, map, arith, if◌then◌else◌, ◌==◌, take, drop,
}
use merry_v.Queue.{Queue, Request}
use merry_v.Queue.Fifo.{IsRing, contents}
use merry_v.Queue.Panic.{panic_request}
use merry_v.RequestHdlr.{
  RequestHdlr, signal_host, wait, push_request_hdlr, pop_request_hdlr, panic, kill_requests,
}
use merry_v.RequestHdlr.Laws.{push_request_hdlr-room, panic-stops}
use merry_v.RequestHdlr.Kill.{wake, kill_requests-half}

abbrev requests : ℕ → Request
requests i = record { request_number = 151; wait_lock = some i; id = i }

abbrev ring : ℕ → ℕ
ring i = if i == 2 then 0 else i + 1

abbrev one : Queue
one = record { node_count = 2; data_count = 1; head = 1; tail = 2; next = ring; value = requests }

abbrev hdlr : RequestHdlr
hdlr = record { queue = one; handle_more = true }

one-IsRing : IsRing one
one-IsRing = record {
  links = λ i h. refl;
  head_in = omega arith;
  room = omega arith;
  tail_at = refl;
  small = omega arith;
}

push_request_hdlr-room_example :
    let (done, effects, h') = push_request_hdlr hdlr 151 4 (some 3) in
    (done ≡ true)
    × IsRing h'.queue
    × (contents h'.queue
        ≡ contents hdlr.queue
          ++ (record { request_number = 151; wait_lock = (some 3); id = 4 } ∷ []))
    × (effects ≡ (
        if hdlr.queue.data_count == 0
        then signal_host ∷ wait (some 3) ∷ []
        else wait (some 3) ∷ []))
push_request_hdlr-room_example = push_request_hdlr-room 151 4 (some 3) one-IsRing refl (omega arith)

panic-stops_example :
    let h' = (panic hdlr 53).1 in
    (push_request_hdlr h' 151 4 (some 3) ≡ (true, [], h'))
    × (panic h' 151 ≡ ([], h'))
    × ((pop_request_hdlr h').0 ≡ true)
    × ((pop_request_hdlr h').1 ≡ some (panic_request 53))
panic-stops_example = panic-stops 53 151 4 (some 3) one-IsRing refl (omega arith)

kill_requests-half_example :
    let n = (hdlr.queue.data_count + 1) / 2 in
    let (effects, h') = kill_requests hdlr in
    (effects ≡ map wake (take n (contents hdlr.queue)))
    × (contents h'.queue ≡ drop n (contents hdlr.queue))
kill_requests-half_example = kill_requests-half hdlr one-IsRing
