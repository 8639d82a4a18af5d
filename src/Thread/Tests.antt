-- ===== src/Thread/Tests.antt =====
-- A host whose locks cannot be initialised, and the theorem of the threads at it.
use merry_v.Common.{◌+◌, ◌≡◌, false, true, some}
use merry_v.Thread.{
  Held, Host, mutex_init, cond_init, thread_init, mutex_destroy, cond_destroy, thread_destroy,
  create_detached_thread,
}
use merry_v.Thread.Balance.{init-balanced}

abbrev host : Host
host = record {
  malloc = some 64;
  mutex_ok = false;
  cond_ok = true;
  attr_ok = true;
  detach_ok = true;
  create_ok = true;
}

abbrev held : Held
held = record { blocks = 3; mutexes = 1; conds = 1; attrs = 0; threads = 1; detached = 2 }

init-balanced_example :
    (mutex_destroy (mutex_init host held).0 (mutex_init host held).1 ≡ held)
    × (cond_destroy (cond_init host held).0 (cond_init host held).1 ≡ held)
    × (thread_destroy (thread_init host held).0 (thread_init host held).1 ≡ held)
    × ((create_detached_thread host (some 64) held).1
        ≡ record held { detached = held.detached + (create_detached_thread host (some 64) held).0 })
init-balanced_example = init-balanced host held (some 64)
