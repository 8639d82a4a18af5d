-- ===== src/Os/Tests/Machines.antt =====
-- Two concrete machines, one about to halt and one whose cores have lost their instructions, and the
-- theorems of cores and operating system together at them.
use merry_v.Common.{ℕ, ◌≡◌, refl, inl, true, false, none, some, [], ◌∷◌, arith, ◌==◌}
use merry_v.Core.{Core, reg_ma}
use merry_v.Core
use merry_v.Core.Console.{Stdio}
use merry_v.Core.Floats.{Floats, Format}
use merry_v.Core.Opcodes.{decode}
use merry_v.Os.Cores.{Machine, core_after, then_round, core_round, none_left, Rounds-Counted}
use merry_v.Os.Halting.{core_after-halt-ends}
use merry_v.Os.Faulting.{IsRunning, Ends, then_core, no_round, core_after-fault-Ends}
use merry_v.Queue.Fifo.{IsRing, contents}
use merry_v.Os.{Os}
use merry_v.Os.Run.{ended, start_loop}
use merry_v.Os.Frames.{frame}
use merry_v.Os.Counted.{Counted}
use merry_v.Os.Tests.{host, far_core, queue, machine}

abbrev core : Core
core = record {
  data_mem = record { pages = []; number_of_pages = 0; error = 0 };
  inst_mem = record { pages = []; number_of_pages = 0; error = 0 };
  stack_mem = λ i. 0;
  registers = λ i. 0;
  sp = 18446744073709551615;
  bp = 0;
  pc = 0;
  core_id = 0;
  cond = some 0;
  flag = record { carry = false; zero = false; negative = false; overflow = false };
  stop_running = false;
  greater = false;
  current_inst = 0;
  ras = record {
    array = some (λ i. 0);
    size = 30;
    sp = 0;
    dynamic = true;
    upper_lim = 50;
    add_per_resize = 10;
  };
  exception_address = 0;
  hdlr = record { queue = queue 0 0; handle_more = true };
  effects = [];
  crashed = false;
  input = [];
  output = [];
}

abbrev core_host : Core.Host
core_host = record {
  update_flags = λ c. c.flag;
  realloc = λ array. array;
  host_word = λ page offset. 0;
  lshift64 = λ v. v;
  rshift64 = λ v. v;
}

abbrev stdio : Stdio
stdio = record {
  getchar = λ input. (none, input);
  putchar = λ b. b ∷ [];
  scan = λ conv input. (none, input);
  print = λ conv v. v ∷ [];
  print_stray = λ conv c. [];
  malloc_ok = λ n. true;
}

abbrev format : Format
format = record {
  add = λ x y. x;
  sub = λ x y. x;
  mul = λ x y. x;
  div = λ x y. x;
  equal = λ x y. x == y;
  greater = λ x y. false;
  is_zero = λ x. x == 0;
}

abbrev floats : Floats
floats = record { single = format; double = format; narrowed = format }

-- HALT
abbrev halting : ℕ → ℕ
halting i = 72057594037927936

-- Core 1 has asked to halt, and core 0 is at the start of an instruction memory of halts.
abbrev last_core : Machine
last_core = record {
  os = record (machine 151 1) {
    cores = (record far_core { registers = λ i. 0 }) ∷ far_core ∷ [];
    inst_mem = record { pages = halting ∷ []; number_of_pages = 1; error = 0 };
  };
  cores = λ id. core;
  input = [];
  output = [];
}

-- The instruction memory of these cores is empty.
abbrev lost_cores : Machine
lost_cores = record { os = machine 151 0; cores = λ id. core; input = []; output = [] }

one-IsRing : IsRing (queue 151 1)
one-IsRing = record {
  links = λ i h. refl;
  head_in = omega arith;
  room = omega arith;
  tail_at = refl;
  small = omega arith;
}

none-IsRing : IsRing (queue 151 0)
none-IsRing = record {
  links = λ i h. refl;
  head_in = omega arith;
  room = omega arith;
  tail_at = refl;
  small = omega arith;
}

lost_cores-IsRunning : IsRunning lost_cores.os
lost_cores-IsRunning = record {
  going = refl;
  busy = omega arith;
  counted = refl;
  open_for = refl;
  ring = none-IsRing;
  small = omega arith;
}

Rounds-Counted_example : Counted (
    frame (core_after stdio floats core_host 1 (core_after stdio floats core_host 0 lost_cores)).os)
Rounds-Counted_example =
    Rounds-Counted {m = lost_cores}
      (then_round (core_round stdio floats core_host 0)
        (then_round (core_round stdio floats core_host 1) none_left))
      (record { counted = refl; active_le = omega arith; small = omega arith })

core_after-halt-ends_example :
    (o : Os) × (start_loop
        (λ i. host)
        (λ k s. s)
        3
        0
        (core_after stdio floats core_host 0 last_core).os
      ≡ ended o)
unfolding decode
core_after-halt-ends_example =
    core_after-halt-ends stdio floats core_host 0 last_core (contents (queue 151 1)) (λ i. host) 0
      refl (omega arith) (omega arith) refl one-IsRing refl (omega arith) (refl, tt) refl refl
      (omega arith)

abbrev both_after : Machine
both_after = core_after stdio floats core_host 1 (core_after stdio floats core_host 0 lost_cores)

core_after-fault-Ends_example : Ends host host both_after.os
core_after-fault-Ends_example =
    core_after-fault-Ends stdio floats core_host 0 lost_cores both_after host host
      lost_cores-IsRunning refl (omega arith) (inl (omega arith))
      (then_core stdio floats core_host 1 no_round)
