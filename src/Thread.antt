-- ===== src/Thread.antt =====
-- The threads of the host, merry/abs/merry_thread.c, as it is built on Linux: locks, condition
-- variables and threads over those of pthread. Where the source only calls pthread on a pointer that
-- is not NULL, as in lock, unlock, wait, signal and broadcast, the model names that call.
pub mod Balance
mod Tests
use merry_v.Common.{ℕ, ◌+◌, ◌-◌, Bool, Option, none, some, List, [], ◌∷◌, if◌then◌else◌}
use merry_v.Os.{ret_success, ret_failure}

-- What the process holds: blocks of malloc, and objects of pthread that are to be destroyed; and the
-- threads that were started.
pub record Held : Type 0 where
  pub blocks : ℕ
  pub mutexes : ℕ
  pub conds : ℕ
  pub attrs : ℕ
  pub threads : ℕ
  pub detached : ℕ

-- Which calls succeed, and the block that malloc gives.
pub record Host : Type 0 where
  pub malloc : Option ℕ
  pub mutex_ok : Bool
  pub cond_ok : Bool
  pub attr_ok : Bool
  pub detach_ok : Bool
  pub create_ok : Bool

abbrev pub take_block : Held → Held
take_block s = record s { blocks = s.blocks + 1 }

abbrev pub free_block : Held → Held
free_block s = record s { blocks = s.blocks - 1 }

unfoldable pub mutex_init : Host → Held → Option ℕ × Held
mutex_init h s = elim h.malloc [
  | none ↦ (none, s)
  | some mutex ↦
      let s' = take_block s in
      if h.mutex_ok
      then (some mutex, record s' { mutexes = s'.mutexes + 1 })
      else (none, free_block s')
]

unfoldable pub cond_init : Host → Held → Option ℕ × Held
cond_init h s = elim h.malloc [
  | none ↦ (none, s)
  | some cond ↦
      let s' = take_block s in
      if h.cond_ok then (some cond, record s' { conds = s'.conds + 1 }) else (none, free_block s')
]

unfoldable pub thread_init : Host → Held → Option ℕ × Held
thread_init h s = elim h.malloc [ none ↦ (none, s) | some thread ↦ (some thread, take_block s) ]

unfoldable pub mutex_destroy : Option ℕ → Held → Held
mutex_destroy none s = s
mutex_destroy (some mutex) s = free_block (record s { mutexes = s.mutexes - 1 })

unfoldable pub cond_destroy : Option ℕ → Held → Held
cond_destroy none s = s
cond_destroy (some cond) s = free_block (record s { conds = s.conds - 1 })

unfoldable pub thread_destroy : Option ℕ → Held → Held
thread_destroy none s = s
thread_destroy (some thread) s = free_block s

-- The calls of pthread on a lock or a condition variable.
pub data Call : Type 0 where
  lock unlock signal broadcast : ℕ → Call
  wait : ℕ → ℕ → Call

unfoldable pub mutex_lock : Option ℕ → List Call
mutex_lock none = []
mutex_lock (some mutex) = lock mutex ∷ []

unfoldable pub mutex_unlock : Option ℕ → List Call
mutex_unlock none = []
mutex_unlock (some mutex) = unlock mutex ∷ []

unfoldable pub cond_wait : Option ℕ → Option ℕ → List Call
cond_wait (some cond) (some mutex) = wait cond mutex ∷ []
cond_wait _ _ = []

unfoldable pub cond_signal : Option ℕ → List Call
cond_signal none = []
cond_signal (some cond) = signal cond ∷ []

unfoldable pub cond_broadcast : Option ℕ → List Call
cond_broadcast none = []
cond_broadcast (some cond) = broadcast cond ∷ []

-- `merry_create_detached_thread` of a function that is not NULL.
unfoldable pub create_detached_thread : Host → Option ℕ → Held → ℕ × Held
create_detached_thread h none s = (ret_failure, s)
create_detached_thread h (some thread) s =
    let s' = record s { attrs = s.attrs + 1 } in
    let s'' = record s' { attrs = s'.attrs - 1 } in
    if h.attr_ok
    then (if h.detach_ok
        then (if h.create_ok
            then (ret_success, record s'' { detached = s''.detached + 1 })
            else (ret_failure, s''))
        else (ret_failure, s''))
    else (ret_failure, s)

-- `merry_create_thread` of a function that is not NULL.
unfoldable pub create_thread : Host → Option ℕ → Held → ℕ × Held
create_thread h none s = (ret_failure, s)
create_thread h (some thread) s =
    if h.create_ok then (ret_success, record s { threads = s.threads + 1 }) else (ret_failure, s)

-- `merry_thread_join` with the variable that its argument points to: `pthread_join` stores the
-- value of the thread into the argument and not into the variable.
unfoldable pub thread_join : Option ℕ → ℕ → ℕ × ℕ
thread_join none variable = (ret_failure, variable)
thread_join (some thread) variable = (ret_success, variable)
