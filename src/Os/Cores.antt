-- ===== src/Os/Cores.antt =====
-- The machine whose cores run merry/merry_core.c, and the steps of the operating system's view of it,
-- merry/merry_os.c. A round of a core and a round of the operating
-- system are taken one after the other, never at once.
use merry_v.Common.{ℕ, ◌≡◌, Option, List, set, update}
use merry_v.DMemory.{DMemory}
use merry_v.Memory.{Memory}
use merry_v.Core.{Core}
use merry_v.Core
use merry_v.Core.Console.{Stdio}
use merry_v.Core.Floats.{Floats}
use merry_v.Core.Run.{step}
use merry_v.Core.Asks.{Said, Saying, silent, panics, requests}
use merry_v.Core.Asks.Dispatch.{core_of, step-Asks}
use merry_v.Os.{Os, VCore, Host, core_at, panic}
use merry_v.Os.Run.{served, slept, run_round}
use merry_v.Os.Frames.{frame}
use merry_v.Os.Counted.{Counted}
use merry_v.Os.Machine.{
  Steps, here, then_step, os_serves, os_sleeps, core_works, core_requests, core_panics,
  Steps-Counted,
}

-- The operating system, the cores with what they keep to themselves, and the streams they share.
pub record Machine : Type 0 where
  pub os : Os
  pub cores : ℕ → Core
  pub input : List ℕ
  pub output : List ℕ

-- A core with what it shares with the others, and with what the operating system made of its
-- registers.
abbrev pub core_in : Machine → ℕ → Core
core_in m id =
    let v = core_at m.os id in
    record (m.cores id) {
      data_mem = m.os.data_mem;
      inst_mem = m.os.inst_mem;
      hdlr = m.os.hdlr;
      effects = m.os.effects;
      registers = v.registers;
      pc = v.pc;
      stop_running = v.stop_running;
      input = m.input;
      output = m.output;
    }

abbrev pub vcore : Core → VCore
vcore c = record { registers = c.registers; pc = c.pc; stop_running = c.stop_running }

abbrev pub put_back : ℕ → Core → Os → Os
put_back id c os = record os {
  cores = set os.cores id (vcore c);
  data_mem = c.data_mem;
  inst_mem = c.inst_mem;
  hdlr = c.hdlr;
  effects = c.effects;
}

-- What a round of core `id` makes of the machine.
abbrev pub core_after : Stdio → Floats → Core.Host → ℕ → Machine → Machine
core_after io fl e id m =
    let c = core_of (step io fl e (core_in m id)) in
    record {
      os = put_back id c m.os;
      cores = update m.cores id c;
      input = c.input;
      output = c.output;
    }

-- A round of the operating system, or a round of a core.
pub data Round : Machine → Machine → Type 0 where
  os_round :
      {m : Machine} (h : Host) (os' : Os)
      → run_round h m.os ≡ served os'
      → Round m (record m { os = os' })
  os_sleep :
      {m : Machine} (h : Host) (os' : Os)
      → run_round h m.os ≡ slept os'
      → Round m (record m { os = os' })
  core_round :
      {m : Machine} (io : Stdio) (fl : Floats) (e : Core.Host) (id : ℕ)
      → Round m (core_after io fl e id m)

pub data Rounds : Machine → Machine → Type 0 where
  none_left : {m : Machine} → Rounds m m
  then_round : {m m' m'' : Machine} → Round m m' → Rounds m' m'' → Rounds m m''

-- What a core asked for, and then its own state, are steps of the operating system's view.
said-Steps :
    (os : Os) (id caller : ℕ) (cond : Option ℕ) (v : VCore) (data_mem : DMemory) (inst_mem : Memory)
    (s : Said)
    → Saying caller cond (record { hdlr = os.hdlr; effects = os.effects }) s
    → Steps os (record os {
      cores = set os.cores id v;
      data_mem = data_mem;
      inst_mem = inst_mem;
      hdlr = s.hdlr;
      effects = s.effects;
    })
unfolding panic
said-Steps os id caller cond v dm im s silent = then_step (core_works id v dm im) here
said-Steps os id caller cond v dm im s (panics error) =
    then_step (core_panics error) (then_step (core_works id v dm im) here)
said-Steps os id caller cond v dm im s (requests number) =
    then_step (core_requests number caller cond) (then_step (core_works id v dm im) here)

append-Steps : {a b c : Os} → Steps a b → Steps b c → Steps a c
append-Steps here more = more
append-Steps (then_step s rest) more = then_step s (append-Steps rest more)

Round-Steps : {m m' : Machine} → Round m m' → Steps m.os m'.os
Round-Steps (os_round h os' e) = then_step (os_serves h e) here
Round-Steps (os_sleep h os' e) = then_step (os_sleeps h e) here
Round-Steps {m} (core_round io fl e id) =
    let c = core_in m id in
    let c' = core_of (step io fl e c) in
    said-Steps m.os id c.core_id c.cond (vcore c') c'.data_mem c'.inst_mem
      (record { hdlr = c'.hdlr; effects = c'.effects }) (step-Asks io fl e c)

-- Whatever programs the cores run, and in whatever order the cores and the operating system take
-- their rounds, the machine makes the steps of the operating system's view of its cores.
pub Rounds-Steps : {m m' : Machine} → Rounds m m' → Steps m.os m'.os
Rounds-Steps none_left = here
Rounds-Steps (then_round r more) = append-Steps (Round-Steps r) (Rounds-Steps more)

-- Whatever programs the cores run, and in whatever order the cores and the operating system
-- take their rounds, the table of cores stays as long as the operating system says, and no more
-- cores count as active than there are, if it was so before.
pub Rounds-Counted : {m m' : Machine} → Rounds m m' → Counted (frame m.os) → Counted (frame m'.os)
Rounds-Counted rounds = Steps-Counted (Rounds-Steps rounds)
