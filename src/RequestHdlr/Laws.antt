-- ===== src/RequestHdlr/Laws.antt =====
-- What the request handler of merry/merry_request_hdlr.c does with a request on every branch.
use merry_v.Common.{
  ℕ, ◌+◌, ◌<◌, ◌≡◌, refl, true, Option, some, [], ◌∷◌, ◌++◌, arith, ltb, ◌==◌, if◌then◌else◌,
  word_mod,
}
use merry_v.Queue.{Queue, push_request}
use merry_v.Queue.Fifo.{
  IsRing, contents, contents-length, push_request-contents, push_request-IsRing,
}
use merry_v.Queue.Panic.{panic_request, pop_request-panic_push}
use merry_v.RequestHdlr.{
  RequestHdlr, signal_host, wait, push_request_hdlr, pop_request_hdlr, panic, wake_host,
}

woken :
    (q : Queue) (req_id id : ℕ) (c : Option ℕ)
    → IsRing q
    → q.data_count < q.node_count
    → wake_host (push_request q c req_id id).1 ++ (wait c ∷ [])
      ≡ (if q.data_count == 0 then signal_host ∷ wait c ∷ [] else wait c ∷ [])
unfolding push_request
woken q req_id id c r room = ground (arith, r.small)

-- While the handler takes requests and its ring has room, a request is appended, the core
-- waits, and the operating system is woken exactly if the queue was empty.
pub push_request_hdlr-room :
    {h : RequestHdlr} (req_id id : ℕ) (c : Option ℕ)
    → IsRing h.queue
    → h.handle_more ≡ true
    → h.queue.data_count < h.queue.node_count
    → let (done, effects, h') = push_request_hdlr h req_id id c in
      (done ≡ true)
      × IsRing h'.queue
      × (contents h'.queue
          ≡ contents h.queue ++ (record { request_number = req_id; wait_lock = c; id = id } ∷ []))
      × (effects ≡ (if h.queue.data_count == 0 then signal_host ∷ wait c ∷ [] else wait c ∷ []))
unfolding push_request_hdlr
push_request_hdlr-room {h} req_id id c r more room =
    let below : ltb h.queue.data_count h.queue.node_count ≡ true = ground arith in
    let spec = push_request-contents c req_id id r in
    let (done, appended) = rw (contents-length h.queue, below) at spec in
    rw (more, done)
      (refl, push_request-IsRing c req_id id r, appended, woken h.queue req_id id c r room)

-- A panic of a handler that takes requests, whose ring has a capacity below 2 ^ 64 - 2, stops
-- it: a later request or panic changes nothing, and the next request popped is the panic.
pub panic-stops :
    {h : RequestHdlr} (error req_id id : ℕ) (c : Option ℕ)
    → IsRing h.queue
    → h.handle_more ≡ true
    → h.queue.node_count + 2 < word_mod
    → let h' = (panic h error).1 in
      (push_request_hdlr h' req_id id c ≡ (true, [], h'))
      × (panic h' req_id ≡ ([], h'))
      × ((pop_request_hdlr h').0 ≡ true)
      × ((pop_request_hdlr h').1 ≡ some (panic_request error))
unfolding panic push_request_hdlr pop_request_hdlr
panic-stops {h} error req_id id c r more small =
    rw more (
      refl,
      refl,
      (pop_request-panic_push error r small).0,
      (pop_request-panic_push error r small).1,
    )
