-- ===== src/Queue/Build.antt =====
-- `merry_request_queue_init` of merry/merry_request_queue.c: the ring that it builds.
use merry_v.Common.{
  ℕ, zero, suc, ◌+◌, ◌≤◌, ◌<◌, ◌≡◌, refl, sym, ap, ◌∙◌, Bool, true, false, some, [], arith, update,
  update_self, update_ne, word_mod, dec_lt,
}
use merry_v.Queue.{Queue, Request, link_nodes, init}
use merry_v.Queue.Fifo.{IsRing, contents}

-- With all its nodes the loop links each to the one allocated after it.
link_nodes-links :
    (node_ok : ℕ → Bool) (n current : ℕ) (next : ℕ → ℕ) (total : ℕ)
    → ((i : ℕ) → i ≤ total → node_ok i ≡ true)
    → current + n ≡ total
    → ((i : ℕ) → i < current → next i ≡ i + 1)
    → let (last, next') = link_nodes node_ok n current next in
      (last ≡ total) × ((i : ℕ) → i < total → next' i ≡ i + 1)
unfolding link_nodes
link_nodes-links node_ok zero current next total ok e before =
    (omega arith, λ i lt. before i (omega arith))
link_nodes-links node_ok (suc n) current next total ok e before =
    let made : node_ok (current + 1) ≡ true = ok (current + 1) (omega arith) in
    rw made (
      link_nodes-links node_ok n (current + 1) (update next current (current + 1)) total ok
        (omega arith)
        λ i lt. elim (dec_lt i current) [
          | yes old ↦ update_ne next current (current + 1) i (omega arith) ∙ before i old
          | no new ↦
              let same : current ≡ i = omega arith in
              ap (update next current (current + 1)) (sym same)
              ∙ update_self next current (current + 1)
              ∙ ap (λ k. k + 1) same
        ])

-- If every allocation succeeds and the capacity is below 2 ^ 64, `merry_request_queue_init`
-- returns an empty ring of the capacity asked for.
pub init-IsRing :
    (node_ok : ℕ → Bool) (next : ℕ → ℕ) (value : ℕ → Request) (n : ℕ)
    → n < word_mod
    → ((i : ℕ) → i ≤ n → node_ok i ≡ true)
    → (q : Queue) × (init true node_ok next value n ≡ some q)
      × IsRing q
      × (q.node_count ≡ n)
      × (contents q ≡ [])
unfolding init
init-IsRing node_ok next value n small ok =
    let (at_end, linked) =
      link_nodes-links node_ok n 0 next n ok (omega arith) (λ i lt. absurd (omega arith)) in
    let nexts = update (link_nodes node_ok n 0 next).1 (link_nodes node_ok n 0 next).0 0 in
    (
      record { node_count = n; data_count = 0; head = 0; tail = 0; next = nexts; value = value },
      rw (ok 0 (omega arith)) refl,
      record {
        links = λ i le. ground (arith, linked i);
        head_in = omega arith;
        room = omega arith;
        tail_at = ground arith;
        small = small;
      },
      refl,
      refl,
    )

-- If the second malloc of a node fails, the queue is built all the same: a ring of one node, whose
-- capacity is still the one asked for.
pub init-short :
    (node_ok : ℕ → Bool) (next : ℕ → ℕ) (value : ℕ → Request) (n : ℕ)
    → node_ok 0 ≡ true
    → node_ok 1 ≡ false
    → (q : Queue) × (init true node_ok next value (suc n) ≡ some q)
      × (q.node_count ≡ suc n)
      × (q.next q.tail ≡ q.tail)
unfolding init link_nodes
init-short node_ok next value n first second = (
  record {
    node_count = suc n;
    data_count = 0;
    head = 0;
    tail = 0;
    next = update next 0 0;
    value = value;
  },
  rw (first, second) refl,
  refl,
  update_self next 0 0,
)
