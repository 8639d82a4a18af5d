-- ===== src/Thread/Balance.antt =====
-- What merry/abs/merry_thread.c takes from the host and gives back to it.
use merry_v.Common.{ℕ, ◌+◌, ◌-◌, ◌≡◌, refl, ap, Bool, true, false, Option, none, some, arith}
use merry_v.Os.{ret_failure}
use merry_v.Thread.{
  Held, Host, mutex_init, cond_init, thread_init, mutex_destroy, cond_destroy, thread_destroy,
  create_detached_thread,
}

cancel : (n : ℕ) → n + 1 - 1 ≡ n
cancel n = omega arith

-- Whatever malloc and pthread do, destroying what the constructor of a lock, a condition
-- variable or a thread returned, which may be NULL, leaves the process holding what it held
-- before; and a detached thread that is asked for leaves no attributes behind, is counted
-- exactly if the function reports success, and is not counted otherwise.
pub init-balanced :
    (h : Host) (s : Held) (thread : Option ℕ)
    → (let (m, s') = mutex_init h s in mutex_destroy m s' ≡ s)
      × (let (c, s') = cond_init h s in cond_destroy c s' ≡ s)
      × (let (t, s') = thread_init h s in thread_destroy t s' ≡ s)
      × (let (status, s') = create_detached_thread h thread s in
          s' ≡ record s { detached = s.detached + status })
unfolding mutex_init cond_init thread_init mutex_destroy cond_destroy thread_destroy
    create_detached_thread
init-balanced h s thread = (
  lock h.malloc h.mutex_ok,
  cond h.malloc h.cond_ok,
  block h.malloc,
  started thread h.attr_ok h.detach_ok h.create_ok,
)
  where
    lock :
        (m : Option ℕ) (ok : Bool)
        → let (p, s') = mutex_init (record h { malloc = m; mutex_ok = ok }) s in
          mutex_destroy p s' ≡ s
    lock none ok = refl
    lock (some m) false = rw cancel refl
    lock (some m) true = rw (cancel s.blocks, cancel s.mutexes) refl

    cond :
        (m : Option ℕ) (ok : Bool)
        → let (p, s') = cond_init (record h { malloc = m; cond_ok = ok }) s in cond_destroy p s' ≡ s
    cond none ok = refl
    cond (some m) false = rw cancel refl
    cond (some m) true = rw (cancel s.blocks, cancel s.conds) refl

    block :
        (m : Option ℕ)
        → let (p, s') = thread_init (record h { malloc = m }) s in thread_destroy p s' ≡ s
    block none = refl
    block (some m) = rw cancel refl

    uncounted : s ≡ record s { detached = s.detached + ret_failure }
    uncounted = ap (λ n. record s { detached = n }) {x = s.detached} (omega arith)

    started :
        (t : Option ℕ) (a d c : Bool)
        → let (status, s') =
            create_detached_thread (record h { attr_ok = a; detach_ok = d; create_ok = c }) t s in
          s' ≡ record s { detached = s.detached + status }
    started none a d c = uncounted
    started (some t) false d c = uncounted
    started (some t) true false c = rw cancel uncounted
    started (some t) true true false = rw cancel uncounted
    started (some t) true true true = rw cancel refl
