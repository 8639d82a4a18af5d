-- ===== src/Core/Run.antt =====
-- `merry_runCore` of merry/merry_core.c: fetch, the switch over the opcodes and the loop.
use merry_v.Common.{ℕ, zero, suc, ◌+◌, Option, none, some, if◌then◌else◌, wrap}
use merry_v.Memory.{Memory}
use merry_v.Memory
use merry_v.Core.{Core, Host, raise}
use merry_v.Core.Opcodes.{decode}
use merry_v.Core.Console.{Stdio}
use merry_v.Core.Switch.{dispatch}
use merry_v.Core.Floats

-- How a core is left: it may go on, or its loop has ended.
pub data Progress : Type 0 where
  running ended : Core → Progress

-- One round of the loop, given the outcome of the fetch.
unfoldable pub fetched : Stdio → Floats.Floats → Host → Option ℕ × Memory → Core → Progress
unfolding raise dispatch decode
fetched io fl e (out, m) c = elim out [
  | none ↦ ended (raise m.error (record c { inst_mem = m }))
  | some inst ↦ running (
      dispatch io fl e (decode inst)
        (record c { inst_mem = m; current_inst = inst; pc = wrap (c.pc + 1) }))
]

-- One round of the loop.
unfoldable pub step : Stdio → Floats.Floats → Host → Core → Progress
unfolding fetched
step io fl e c = if c.stop_running then ended c else fetched io fl e (Memory.read c.inst_mem c.pc) c

-- At most `fuel` rounds; a core may run for ever.
unfoldable pub run_core : Stdio → Floats.Floats → Host → ℕ → Core → Progress
unfolding step
run_core io fl e zero c = running c
run_core io fl e (suc fuel) c = elim (step io fl e c) [
  | running c' ↦ run_core io fl e fuel c'
  | ended c' ↦ ended c'
]
