-- ===== src/Queue/Fifo.antt =====
-- The request queue of merry/merry_request_queue.c as a bounded first-in first-out list.
use merry_v.Common.{
  ℕ, zero, suc, ◌+◌, ◌-◌, ◌≤◌, ◌<◌, ◌≡◌, refl, ap, ap₂, Bool, true, false, Option, none, some, List,
  [], ◌∷◌, ◌++◌, arith, ltb, ◌==◌, if◌then◌else◌, update, update_self, update_ne, word_mod, wrap,
  length, Bool-cases, inl, inr,
}
use merry_v.Queue.{Queue, Request, is_queue_full, is_queue_empty, push_request, pop_request}

-- The node `k` links behind node `h` in a ring of `suc n` nodes.
abbrev pub pos : ℕ → ℕ → ℕ → ℕ
pos n h k = if ltb (h + k) (suc n) then h + k else h + k - suc n

-- The ring has one node more than the capacity, and the tail is behind the stored values.
pub record IsRing (q : Queue) : Type 0 where
  pub links : (i : ℕ) → i ≤ q.node_count → q.next i ≡ (if i == q.node_count then 0 else i + 1)
  pub head_in : q.head ≤ q.node_count
  pub room : q.data_count ≤ q.node_count
  pub tail_at : q.tail ≡ pos q.node_count q.head q.data_count
  pub small : q.node_count < word_mod

-- The `k` values from node `h` on.
abbrev pub cells : (ℕ → Request) → ℕ → ℕ → ℕ → List Request
cells value n h zero = []
cells value n h (suc k) = value h ∷ cells value n (pos n h 1) k

abbrev pub contents : Queue → List Request
contents q = cells q.value q.node_count q.head q.data_count

length-cells : (value : ℕ → Request) (n h k : ℕ) → length (cells value n h k) ≡ k
length-cells value n h zero = refl
length-cells value n h (suc k) = ap suc (length-cells value n (pos n h 1) k)

cells-snoc :
    (value : ℕ → Request) (n k h p : ℕ) (r : Request)
    → h ≤ n
    → k ≤ n
    → p ≡ pos n h k
    → cells (update value p r) n h (suc k) ≡ cells value n h k ++ (r ∷ [])
cells-snoc value n zero h p r hh hk e =
    let same : p ≡ h = ground arith in ap₂ ◌∷◌ (rw same (update_self value h r)) refl
cells-snoc value n (suc k) h p r hh hk e =
    ap₂ ◌∷◌ (update_ne value p r h (ground arith))
      (cells-snoc value n k (pos n h 1) p r (ground arith) (omega arith) (ground arith))

pub contents-length : (q : Queue) → length (contents q) ≡ q.data_count
contents-length q = length-cells q.value q.node_count q.head q.data_count

-- A push, taken or refused, keeps the queue a ring with its tail behind the stored requests.
pub push_request-IsRing :
    {q : Queue} (c : Option ℕ) (num id : ℕ) → IsRing q → IsRing (push_request q c num id).1
unfolding push_request
push_request-IsRing {q} c num id r = elim (Bool-cases (is_queue_full q)) [
  | inl full ↦ rw full r
  | inr space ↦ rw space (record {
    links = r.links;
    head_in = r.head_in;
    room = ground (arith, r.room, r.small);
    tail_at = ground (arith, r.links q.tail);
    small = r.small;
  })
]

-- A pop, from an empty queue too, keeps the queue a ring with its tail behind the stored
-- requests.
pub pop_request-IsRing : {q : Queue} → IsRing q → IsRing (pop_request q).2
unfolding pop_request
pop_request-IsRing {q} r = elim (Bool-cases (is_queue_empty q)) [
  | inl empty ↦ rw empty r
  | inr stored ↦ rw stored (record {
    links = r.links;
    head_in = ground (arith, r.links q.head);
    room = omega arith;
    tail_at = ground (arith, r.links q.head);
    small = r.small;
  })
]

-- On a ring, a push appends the request to the list of those stored, and is refused, with the
-- list as it was, exactly if the queue holds its capacity.
pub push_request-contents :
    {q : Queue} (c : Option ℕ) (num id : ℕ)
    → IsRing q
    → let (done, q') = push_request q c num id in
      (done ≡ ltb (length (contents q)) q.node_count)
      × (contents q' ≡ (
          if ltb (length (contents q)) q.node_count
          then contents q ++ (record { request_number = num; wait_lock = c; id = id } ∷ [])
          else contents q))
unfolding push_request
push_request-contents {q} c num id r = elim (Bool-cases (is_queue_full q)) [
  | inl full ↦
      let at_end : ltb q.data_count q.node_count ≡ false = ground arith in
      rw (full, contents-length q, at_end) (refl, refl)
  | inr space ↦
      let below : ltb q.data_count q.node_count ≡ true = ground (arith, r.room) in
      let next : wrap (q.data_count + 1) ≡ suc q.data_count = ground (arith, r.room, r.small) in
      rw (space, contents-length q, below, next)
        (
          refl,
          cells-snoc q.value q.node_count q.data_count q.head q.tail _ r.head_in r.room r.tail_at,
        )
]

-- What a pop gives on a queue with these contents.
abbrev pub Popped : List Request → Queue → Bool × Option Request × Queue → Type 0
Popped [] q (done, out, q') = (done ≡ false) × (out ≡ none) × (q' ≡ q)
Popped (x ∷ rest) q (done, out, q') = (done ≡ true) × (out ≡ some x) × (contents q' ≡ rest)

-- On a ring, a pop returns the oldest request and leaves the others in order; on an empty one
-- it fails, gives nothing and changes nothing.
pub pop_request-contents : {q : Queue} → IsRing q → Popped (contents q) q (pop_request q)
unfolding pop_request
pop_request-contents {q} r = go q.data_count refl
  where
    go : (k : ℕ) → q.data_count ≡ k → Popped (cells q.value q.node_count q.head k) q (pop_request q)
    go zero e = ground arith
    go (suc k) e = ground (arith, r.links q.head)

-- A pop from a queue that holds something.
pub pop_request-some :
    {q : Queue}
    → IsRing q
    → 0 < q.data_count
    → ((pop_request q).1 ≡ some (q.value q.head))
      × (contents q ≡ q.value q.head ∷ contents (pop_request q).2)
      × ((pop_request q).2.data_count + 1 ≡ q.data_count)
unfolding pop_request
pop_request-some {q} r h = (ground arith, unfold_front q.data_count refl h, ground arith)
  where
    unfold_front :
        (k : ℕ)
        → q.data_count ≡ k
        → 0 < k
        → cells q.value q.node_count q.head k ≡ q.value q.head ∷ contents (pop_request q).2
    unfold_front zero e lt = absurd (omega arith)
    unfold_front (suc k) e lt = ground (arith, r.links q.head)
