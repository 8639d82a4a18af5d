-- ===== src/Os/Tests.antt =====
-- A concrete machine of two cores, and the theorems of the operating system at it.
mod Machines
use merry_v.Common.{
  ℕ, ◌+◌, ◌≡◌, refl, true, false, ◌&&◌, none, some, [], ◌∷◌, arith, if◌then◌else◌, ◌==◌,
}
use merry_v.DMemory.{zero_page, deduce_address}
use merry_v.Core.{reg_ma}
use merry_v.Queue.{Queue, pop_request}
use merry_v.Queue.Fifo.{IsRing, contents, pop_request-IsRing}
use merry_v.RequestHdlr.{pop_request_hdlr}
use merry_v.Reader.{Reader, init_reader}
use merry_v.Os.{Os, VCore, Host, reg, reg_mb, panic, add_locked, ret_success}
use merry_v.Os.Requests.{boot_new_core, execute_mem}
use merry_v.Os.Run.{boot_cores, new_core, execute, ended, served, run_round, start_loop}
use merry_v.Os.Frames.{frame}
use merry_v.Os.Counted.{Counted}
use merry_v.Os.Machine.{here, then_step, core_panics, Steps-Counted}
use merry_v.Os.Failures.{AllStopped, panic-ends, dynl_outside-ends}
use merry_v.Os.NewCore.{execute_mem-place, slept-blocks, new_core-status}
use merry_v.Os.Drain.{halts-end}
use merry_v.Os.Init.{Start, init}
use merry_v.Os.Started.{Started, init-Started, boot_cores-active}

abbrev pub host : Host
host = record {
  threads_ok = true;
  cores_ok = true;
  core_ok = true;
  thread_ok = λ i. true;
  create_ok = λ i. true;
  realloc_ok = true;
  malloc_ok = true;
  fresh = zero_page;
  libs = record { realloc_ok = false; dlopen = λ path. 77; dlsym = λ lib name. 0 };
  call = λ f param. 0;
  open_file = λ path mode. some 3;
  read = λ fd place n. some [];
  read_tmp = λ fd. some [];
  write = λ fd place n. some n;
  seek_ok = λ fd off whence. true;
}

abbrev pub far_core : VCore
far_core = record { registers = λ i. 1073741824; pc = 0; stop_running = false }

abbrev ring : ℕ → ℕ
ring i = if i == 2 then 0 else i + 1

-- The requests of cores 0 and 1, with the number given.
abbrev pub queue : ℕ → ℕ → Queue
queue number stored = record {
  node_count = 2;
  data_count = stored;
  head = 0;
  tail = stored;
  next = ring;
  value = λ i. record { request_number = number; wait_lock = some i; id = i };
}

abbrev pub machine : ℕ → ℕ → Os
machine number stored = record {
  eat = 0 ∷ 1 ∷ [];
  cores = far_core ∷ far_core ∷ [];
  data_mem = record { pages = zero_page ∷ []; number_of_pages = 1; error = 0 };
  inst_mem = record { pages = []; number_of_pages = 0; error = 0 };
  core_count = 2;
  active_core_count = 2;
  stop = false;
  ret = 0;
  locked = false;
  hdlr = record { queue = queue number stored; handle_more = true };
  loader = record { entries = []; entry_count = 0; closed_entry_count = 0; overrun = false };
  effects = [];
  calls = [];
}

full-IsRing : (number : ℕ) → IsRing (queue number 2)
full-IsRing number = record {
  links = λ i h. refl;
  head_in = omega arith;
  room = omega arith;
  tail_at = refl;
  small = omega arith;
}

left-IsRing : (number : ℕ) → IsRing (pop_request_hdlr (machine number 2).hdlr).2.queue
unfolding pop_request_hdlr
left-IsRing number = pop_request-IsRing (full-IsRing number)

machine-Counted : Counted (frame (machine 151 2))
machine-Counted = record { counted = refl; active_le = omega arith; small = omega arith }

Steps-Counted_example : Counted (frame (panic 53 (machine 151 2)))
Steps-Counted_example = Steps-Counted (then_step (core_panics 53) here) machine-Counted

panic-ends_example :
    (o : Os) × (run_round host (panic 53 (machine 151 2)) ≡ served o)
    × AllStopped o.cores
    × (o.ret ≡ 0)
    × (run_round host o ≡ ended o)
panic-ends_example =
    panic-ends host host 53 (machine 151 2) refl (omega arith) refl refl (full-IsRing 151)
      (omega arith) (omega arith)

dynl_outside-ends_example :
    (o : Os) × (o' : Os) × (run_round host (machine 154 2) ≡ served o)
    × (run_round host o ≡ served o')
    × AllStopped o'.cores
    × (o'.ret ≡ 0)
    × (run_round host o' ≡ ended o')
unfolding pop_request_hdlr pop_request
dynl_outside-ends_example =
    dynl_outside-ends host host host (machine 154 2)
      (record { request_number = 154; wait_lock = some 0; id = 0 }) refl (omega arith) refl refl
      refl refl (left-IsRing 154) (omega arith) (omega arith)

slept-blocks_example :
    execute host new_core 0 (panic 53 (record (machine 151 0) { locked = true })) ≡ none
unfolding run_round pop_request_hdlr pop_request
slept-blocks_example =
    slept-blocks host host 0 (machine 151 0) refl (then_step (core_panics 53) here)

new_core-status_example : reg (boot_new_core host 0 (add_locked host (machine 153 2))) 0 reg_ma ≡ (
    if (add_locked host (machine 153 2)).0 == ret_success
    then (if host.thread_ok (machine 153 2).core_count && host.create_ok (machine 153 2).core_count
        then 1
        else 0)
    else 1)
new_core-status_example = new_core-status host 0 (machine 153 2) (omega arith)

execute_mem-place_example :
    let os' = execute_mem host 0 (machine 165 2) in
    (deduce_address (reg os' 0 reg_mb)
      ≡ record { page = (machine 165 2).data_mem.number_of_pages; offset = 1 })
    × (os'.data_mem.number_of_pages ≡ (machine 165 2).data_mem.number_of_pages + 1)
execute_mem-place_example =
    execute_mem-place host 0 (machine 165 2) refl refl (omega arith) (omega arith)

halts-end_example : (o : Os) × (start_loop (λ i. host) (λ k s. s) 3 0 (machine 151 2) ≡ ended o)
halts-end_example =
    halts-end (λ i. host) (contents (queue 151 2)) 0 (machine 151 2) (refl, (refl, tt))
      (full-IsRing 151) refl refl (omega arith)

abbrev start : Start
start = record {
  data_host = record {
    struct_ok = true;
    array_ok = true;
    page_ok = λ i. true;
    fresh = λ i. zero_page;
  };
  bytes_at = λ p. zero_page;
  realloc_ok = true;
  page_ok = true;
  fresh = zero_page;
  inst_struct_ok = true;
  inst_array_ok = true;
  inst_page_ok = λ i. true;
  cores_ok = true;
  core_ok = λ i. true;
  cond_ok = true;
  lock_ok = true;
  queue_ok = true;
  node_ok = λ i. true;
  node_next = λ i. 0;
  node_value = λ i. record { request_number = 0; wait_lock = none; id = 0 };
  hdlr_lock_ok = true;
  threads_ok = true;
  loader_ok = true;
  left = λ i. record { entry_name = []; lib_handle = 0; handle_open = false };
}

abbrev reader : Reader
reader = record (init_reader (λ i. 0) (λ p i. 0) []) {
  eat = 0 ∷ [];
  eat_entry_count = 1;
  inst_page_count = 1;
  data_page_count = 1;
}

init-Started_example : Started reader.eat_entry_count (init start reader (2 ∷ []) (λ i. 65))
init-Started_example = init-Started start reader (2 ∷ []) (λ i. 65) (λ i le. refl)

boot_cores-active_example :
    ((boot_cores host 2 0 (record (machine 151 0) { active_core_count = 0 })).0 ≡ true)
    × ((boot_cores host 2 0 (record (machine 151 0) { active_core_count = 0 })).1.active_core_count
        ≡ (record (machine 151 0) { active_core_count = 0 }).active_core_count + 2)
    × ((boot_cores host 2 0 (record (machine 151 0) { active_core_count = 0 })).1.hdlr
        ≡ (record (machine 151 0) { active_core_count = 0 }).hdlr)
    × ((boot_cores host 2 0 (record (machine 151 0) { active_core_count = 0 })).1.stop
        ≡ (record (machine 151 0) { active_core_count = 0 }).stop)
boot_cores-active_example =
    boot_cores-active host 2 0 (record (machine 151 0) { active_core_count = 0 }) (λ k. refl)
      (λ k. refl) (omega arith)
