-- ===== src/Queue/Tests.antt =====
-- Concrete queues with a capacity of two requests, and the theorems of the queue at them.
use merry_v.Common.{
  ℕ, suc, ◌+◌, ◌≡◌, refl, Bool, true, some, [], ◌∷◌, ◌++◌, arith, if◌then◌else◌, ◌==◌, ltb, length,
}
use merry_v.Queue.{Queue, Request, init, push_request, pop_request, panic_push}
use merry_v.Queue.Fifo.{
  IsRing, contents, Popped, push_request-contents, pop_request-contents, push_request-IsRing,
  pop_request-IsRing,
}
use merry_v.Queue.Build.{init-IsRing, init-short}
use merry_v.Queue.Panic.{
  panic_request, pop_request-panic_push, push_request-panic_full, pop_request-panic_empty,
}

abbrev numbers : ℕ → ℕ
numbers i = i

abbrev always : ℕ → Bool
always i = true

abbrev first_only : ℕ → Bool
first_only i = i == 0

abbrev requests : ℕ → Request
requests i = record { request_number = 151; wait_lock = some i; id = i }

abbrev ring : ℕ → ℕ
ring i = if i == 2 then 0 else i + 1

abbrev empty : Queue
empty = record { node_count = 2; data_count = 0; head = 1; tail = 1; next = ring; value = requests }

abbrev one : Queue
one = record { node_count = 2; data_count = 1; head = 1; tail = 2; next = ring; value = requests }

abbrev two : Queue
two = record { node_count = 2; data_count = 2; head = 1; tail = 0; next = ring; value = requests }

empty-IsRing : IsRing empty
empty-IsRing = record {
  links = λ i h. refl;
  head_in = omega arith;
  room = omega arith;
  tail_at = refl;
  small = omega arith;
}

one-IsRing : IsRing one
one-IsRing = record {
  links = λ i h. refl;
  head_in = omega arith;
  room = omega arith;
  tail_at = refl;
  small = omega arith;
}

two-IsRing : IsRing two
two-IsRing = record {
  links = λ i h. refl;
  head_in = omega arith;
  room = omega arith;
  tail_at = refl;
  small = omega arith;
}

push_request-contents_example :
    let (done, q') = push_request one (some 3) 9 4 in
    (done ≡ ltb (length (contents one)) one.node_count)
    × (contents q' ≡ (
        if ltb (length (contents one)) one.node_count
        then contents one ++ (record { request_number = 9; wait_lock = (some 3); id = 4 } ∷ [])
        else contents one))
push_request-contents_example = push_request-contents (some 3) 9 4 one-IsRing

pop_request-contents_example : Popped (contents one) one (pop_request one)
pop_request-contents_example = pop_request-contents one-IsRing

push_request-IsRing_example : IsRing (push_request one (some 3) 9 4).1
push_request-IsRing_example = push_request-IsRing (some 3) 9 4 one-IsRing

pop_request-IsRing_example : IsRing (pop_request one).2
pop_request-IsRing_example = pop_request-IsRing one-IsRing

init-IsRing_example :
    (q : Queue) × (init true always numbers requests 10 ≡ some q)
    × IsRing q
    × (q.node_count ≡ 10)
    × (contents q ≡ [])
init-IsRing_example = init-IsRing always numbers requests 10 (omega arith) (λ i h. refl)

init-short_example :
    (q : Queue) × (init true first_only numbers requests (suc 9) ≡ some q)
    × (q.node_count ≡ suc 9)
    × (q.next q.tail ≡ q.tail)
init-short_example = init-short first_only numbers requests 9 refl refl

pop_request-panic_push_example :
    ((pop_request (panic_push one 53)).0 ≡ true)
    × ((pop_request (panic_push one 53)).1 ≡ some (panic_request 53))
pop_request-panic_push_example = pop_request-panic_push 53 one-IsRing (omega arith)

push_request-panic_full_example :
    ((push_request (panic_push two 53) (some 3) 9 4).0 ≡ true)
    × ((push_request (panic_push two 53) (some 3) 9 4).1.data_count ≡ two.node_count + 2)
push_request-panic_full_example =
    push_request-panic_full 53 (some 3) 9 4 two-IsRing (omega arith) refl

pop_request-panic_empty_example :
    (pop_request (push_request (panic_push empty 53) (some 3) 9 4).1).1
    ≡ some (record { request_number = 9; wait_lock = (some 3); id = 4 })
pop_request-panic_empty_example =
    pop_request-panic_empty 53 (some 3) 9 4 empty-IsRing refl (omega arith)
