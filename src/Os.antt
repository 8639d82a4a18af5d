-- ===== src/Os.antt =====
-- The operating system of the machine, merry/merry_os.c and merry/os/merry_os.h: its state, and how
-- it starts, adds and stops cores. The children model the requests it serves and its loop. The
-- messages are in Messages.
pub mod File
pub mod Requests
pub mod Run
pub mod Frames
pub mod Counted
pub mod Machine
pub mod Messages
pub mod Release
pub mod Cores
pub mod Halting
pub mod Faulting
pub mod Failures
pub mod Init
pub mod Started
pub mod NewCore
pub mod Drain
mod Tests
use merry_v.Common.{
  ℕ, zero, suc, ◌+◌, ◌-◌, ◌*◌, ◌%◌, Bool, true, false, Option, none, some, List, [], ◌∷◌, ◌++◌,
  ◌==◌, if◌then◌else◌, get_or, set, update, wrap, word_mod,
}
use merry_v.DMemory.{DMemory, Page, DAddress}
use merry_v.Memory.{Memory}
use merry_v.Loader.{Loader}
use merry_v.Loader
use merry_v.RequestHdlr.{RequestHdlr, Effect}
use merry_v.RequestHdlr

-- The fields of `MerryCore` that the operating system uses.
pub record VCore : Type 0 where
  pub registers : ℕ → ℕ
  pub pc : ℕ
  pub stop_running : Bool

-- A system call that the operating system makes; a file descriptor is an `int`.
pub data Call : Type 0 where
  close_file : ℕ → Call
  write_file : ℕ → Option DAddress → ℕ → Call
  seek_file : ℕ → ℕ → ℕ → Call
  dlclose : ℕ → Call

-- `struct Merry` with the request handler and the loader, which are static too. `eat` is the table
-- of the reader, `locked` whether `_lock` is held, `effects` and `calls` what was asked of the
-- threads and of the system so far.
pub record Os : Type 0 where
  pub eat : List ℕ
  pub cores : List VCore
  pub data_mem : DMemory
  pub inst_mem : Memory
  pub core_count : ℕ
  pub active_core_count : ℕ
  pub stop : Bool
  pub ret : ℕ
  pub locked : Bool
  pub hdlr : RequestHdlr
  pub loader : Loader
  pub effects : List Effect
  pub calls : List Call

-- How a file is opened: the flags of open.
pub data OpenMode : Type 0 where
  read_only write_only append truncate read_write : OpenMode

-- What the host decides. The calls of malloc in `merry_os_add_core`, the parts of
-- `merry_core_init`, and of `merry_create_detached_thread`, by core; a new page of memory; shared
-- libraries; and files: open (`none` for -1), read and write by descriptor, place and length,
-- and a read of one byte that is dropped (`none` for -1).
pub record Host : Type 0 where
  pub threads_ok : Bool
  pub cores_ok : Bool
  pub core_ok : Bool
  pub thread_ok : ℕ → Bool
  pub create_ok : ℕ → Bool
  pub realloc_ok : Bool
  pub malloc_ok : Bool
  pub fresh : Page
  pub libs : Loader.Host
  pub call : ℕ → DAddress → ℕ
  pub open_file : List ℕ → OpenMode → Option ℕ
  pub read : ℕ → Option DAddress → ℕ → Option (List ℕ)
  pub read_tmp : ℕ → Option (List ℕ)
  pub write : ℕ → Option DAddress → ℕ → Option ℕ
  pub seek_ok : ℕ → ℕ → ℕ → Bool

-- RET_SUCCESS and RET_FAILURE, which are mtrue and mfalse
abbrev pub ret_success : ℕ
ret_success = 1

abbrev pub ret_failure : ℕ
ret_failure = 0

-- Registers Mb and Md; Ma and Mc stand with the core.
abbrev pub reg_mb : ℕ
reg_mb = 1

abbrev pub reg_md : ℕ
reg_md = 3

-- What `merry_core_init` leaves of these fields.
abbrev pub new_vcore : VCore
new_vcore = record { registers = λ i. 0; pc = 0; stop_running = false }

-- `os.cores[id]`
abbrev pub core_at : Os → ℕ → VCore
core_at os id = get_or os.cores id new_vcore

abbrev pub reg : Os → ℕ → ℕ → ℕ
reg os id r = (core_at os id).registers r

-- `os->cores[id]->registers[r] = v`
abbrev pub set_reg : ℕ → ℕ → ℕ → Os → Os
set_reg id r v os =
    let c = core_at os id in
    record os { cores = set os.cores id (record c { registers = update c.registers r v }) }

-- `merry_requestHdlr_panic`
unfoldable pub panic : ℕ → Os → Os
panic error os =
    let (effects, h) = RequestHdlr.panic os.hdlr error in
    record os { hdlr = h; effects = os.effects ++ effects }

-- `merry_os_boot_core`
unfoldable pub boot_core : Host → ℕ → ℕ → Os → ℕ × Os
boot_core h core_id start_addr os =
    let c = core_at os core_id in
    let os' = record os { cores = set os.cores core_id (record c { pc = start_addr }) } in
    if h.thread_ok core_id
    then (if h.create_ok core_id
        then (ret_success, record os' { active_core_count = wrap (os.active_core_count + 1) })
        else (ret_failure, os'))
    else (ret_failure, os')

-- `merry_os_add_core` once it has the lock: a failure leaves the lock locked.
unfoldable pub add_locked : Host → Os → ℕ × Os
add_locked h os =
    if h.threads_ok
    then (if h.cores_ok
        then (if h.core_ok
            then (
              ret_success,
              record os {
                cores = os.cores ++ (new_vcore ∷ []);
                core_count = os.core_count + 1;
                locked = false;
              },
            )
            else (ret_failure, record os { locked = true }))
        else (ret_failure, record os { locked = true }))
    else (ret_failure, record os { locked = true })

-- `merry_os_add_core`; `none` if the thread already holds the lock and waits for ever.
unfoldable pub add_core : Host → Os → Option (ℕ × Os)
unfolding add_locked
add_core h os = if os.locked then none else some (add_locked h os)

-- The loop of `merry_os_prepare_for_exit` over the first `n` cores. A place behind the table is no
-- core of it.
unfoldable pub stop_cores : ℕ → List VCore → List VCore
stop_cores zero cores = cores
stop_cores (suc n) [] = []
stop_cores (suc n) (c ∷ cores) = record c { stop_running = true } ∷ stop_cores n cores

-- `merry_os_prepare_for_exit`
unfoldable pub prepare_for_exit : Os → Os
unfolding stop_cores
prepare_for_exit os =
    let (effects, h) = RequestHdlr.kill_requests os.hdlr in
    record os {
      cores = stop_cores os.core_count os.cores;
      hdlr = h;
      effects = os.effects ++ effects;
      stop = true;
    }

-- `merry_os_handle_error` and `merry_os_handle_internal_module_error`
unfoldable pub handle_error : Os → Os
handle_error os = record os { ret = ret_failure }
