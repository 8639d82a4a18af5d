-- ===== src/Main/Tests.antt =====
-- A concrete process that runs a concrete file, and the theorems of main.c at it.
use merry_v.Common.{ℕ, ◌≡◌, refl, Bool, true, false, none, some, [], ◌∷◌, arith}
use merry_v.DMemory.{zero_page}
use merry_v.Memory.{MemPage}
use merry_v.Core.Lifecycle.{null as null_pointer}
use merry_v.Reader.{Reader, init_reader}
use merry_v.Reader
use merry_v.Reader.Load.{loaded, read_file}
use merry_v.Reader.Format.{Program, encode}
use merry_v.Reader.Program.{read_program, read_file-encode}
use merry_v.Os.{Os}
use merry_v.Os
use merry_v.DMemory
use merry_v.Os.Init.{Start, init_data, init_inst, init_cores, init_hdlr, init_loader}
use merry_v.Os.Run.{Round, ended}
use merry_v.Options.{Clp, null}
use merry_v.Options.Parse.{flag_f}
use merry_v.Main.{
  World, Booted, up, down, faulted, spinning, crashes, main, os_init, boot_loaded, boot_read,
}
use merry_v.Main.Code.{main-plain}

abbrev reader_host : Reader.Host
reader_host = record {
  malloc_ok = true;
  realloc_ok = true;
  mmap_inst = λ i. some 4096;
  mmap_data = λ i. some 8192;
  left = λ i. 0;
}

abbrev heap : ℕ → MemPage
heap p i = 0

abbrev program : Program
program = record { entries = 0 ∷ []; words = 5 ∷ 7 ∷ [] }

abbrev os_host : Os.Host
os_host = record {
  threads_ok = true;
  cores_ok = true;
  core_ok = true;
  thread_ok = λ i. true;
  create_ok = λ i. true;
  realloc_ok = true;
  malloc_ok = true;
  fresh = zero_page;
  libs = record { realloc_ok = false; dlopen = λ path. 77; dlsym = λ lib name. 0 };
  call = λ f param. 0;
  open_file = λ path mode. some 3;
  read = λ fd place n. some [];
  read_tmp = λ fd. some [];
  write = λ fd place n. some n;
  seek_ok = λ fd off whence. true;
}

abbrev start : Start
start = record {
  data_host = record {
    struct_ok = true;
    array_ok = true;
    page_ok = λ i. true;
    fresh = λ i. zero_page;
  };
  bytes_at = λ p. zero_page;
  realloc_ok = true;
  page_ok = true;
  fresh = zero_page;
  inst_struct_ok = true;
  inst_array_ok = true;
  inst_page_ok = λ i. true;
  cores_ok = true;
  core_ok = λ i. true;
  cond_ok = true;
  lock_ok = true;
  queue_ok = true;
  node_ok = λ i. true;
  node_next = λ i. 0;
  node_value = λ i. record { request_number = 0; wait_lock = none; id = 0 };
  hdlr_lock_ok = true;
  threads_ok = true;
  loader_ok = true;
  left = λ i. record { entry_name = []; lib_handle = 0; handle_open = false };
}

-- malloc left a count of options.
abbrev left : Clp
left = record {
  help = false;
  file = false;
  ver = false;
  clo = false;
  file_value = [];
  options = null;
  option_count = 7;
}

-- The cores are started, and the machine is then told to stop.
abbrev world : World
world = record {
  clp = some left;
  options_ok = true;
  reader_ok = true;
  open_file = λ path. some (encode program);
  reader = reader_host;
  left = λ i. 0;
  reader_left = record {
    eat = null_pointer;
    sections = null_pointer;
    st_data = null_pointer;
    syms = null_pointer;
  };
  heap = heap;
  start = start;
  option_memory = λ i. 65;
  threads = record {
    malloc = some 64;
    mutex_ok = true;
    cond_ok = true;
    attr_ok = true;
    detach_ok = true;
    create_ok = true;
  };
  held = record { blocks = 0; mutexes = 0; conds = 0; attrs = 0; threads = 0; detached = 0 };
  hosts = λ i. os_host;
  meanwhile = λ i os. record os { stop = true };
  unmaps = λ os. true;
}

read :
    read_file reader_host (encode program) (init_reader (λ i. 0) heap (encode program))
    ≡ loaded (read_program reader_host heap program 4096)
read =
    (read_file-encode reader_host heap program 4096 refl refl (omega arith) (omega arith, tt)
      (omega arith, (omega arith, tt)) (omega arith) (omega arith) (omega arith) (omega arith)).0

-- A start that comes up has a machine, and a loop that ends leaves one.
abbrev is_up : Booted → Bool
is_up (up r os) = true
is_up _ = false

up_machine : (b : Booted) → is_up b ≡ true → (r : Reader) × (os : Os) × (b ≡ up r os)
up_machine (up r os) e = (r, os, refl)
up_machine down e = absurd (cc e)
up_machine faulted e = absurd (cc e)
up_machine spinning e = absurd (cc e)

abbrev is_ended : Round → Bool
is_ended (ended os) = true
is_ended _ = false

came_up : (r : Reader) × (os : Os) × (os_init world (b'a' ∷ []) null 0 ≡ up r os)
unfolding os_init boot_loaded boot_read Os.Init.init init_data DMemory.init_provided init_inst
    init_cores init_hdlr init_loader
came_up = up_machine (os_init world (b'a' ∷ []) null 0) (rw read refl)

main-plain_example : main world 1 (flag_f ∷ (b'a' ∷ []) ∷ []) ≡ crashes
main-plain_example =
    main-plain world 1 (b'a' ∷ []) left came_up.0 came_up.1 refl refl refl refl came_up.2
