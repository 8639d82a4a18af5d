-- ===== src/Core/Tests/Switch.antt =====
-- The theorems of the fetch, the switch, the console and the life of a core at the concrete core.
use merry_v.Common.{
  ℕ, ◌+◌, ◌/◌, ◌%◌, ◌≢◌, ◌++◌, drop, ◌≡◌, refl, ap, true, false, [], ◌∷◌, arith, if◌then◌else◌, ltb,
}
use merry_v.Memory.Laws.{flat, size}
use merry_v.Core.{Core, lower_down_reg, with_inst}
use merry_v.Memory.{fault}
use merry_v.Core.{raise}
use merry_v.Core.Opcodes.{decode, op_cout, op_div_imm}
use merry_v.Core.Console.{hhi, hhu, sin, sout, in_reg, out_reg, until_nul, console_case}
use merry_v.Core.Console.Text.{Reads, line, sout-sin}
use merry_v.Core.Console.Numbers.{Extends, out_reg-in_reg, console_case-Extends}
use merry_v.Core.Asks.{Asks}
use merry_v.Core.Asks.Dispatch.{dispatch-Asks}
use merry_v.Core.Lifecycle.{Grants, Accounted, build, build-Accounted}
use merry_v.Core.Switch.{dispatch}
use merry_v.Core.Run.{running, ended, step}
use merry_v.Core.Cycle.{fetch, step-fetch, step-move_imm_64}
use merry_v.Core.Moves.{move_imm_64}
use merry_v.Core.Tests.{host, core, loader, stdio, floats, mem-IsValid}

step-move_imm_64_example :
    (step stdio floats host loader ≡ running (move_imm_64 (fetch loader)))
    × ((move_imm_64 (fetch loader)).pc ≡ loader.pc + 2)
    × ((move_imm_64 (fetch loader)).registers (lower_down_reg (flat loader.inst_mem loader.pc))
        ≡ flat loader.inst_mem (loader.pc + 2))
    × ((move_imm_64 (fetch loader)).stop_running ≡ false)
unfolding decode
step-move_imm_64_example =
    step-move_imm_64 stdio floats host loader refl (omega arith) (omega arith) refl

step-fetch_example : step stdio floats host core ≡ (
    if ltb core.pc (size core.inst_mem)
    then running (dispatch stdio floats host (decode (flat core.inst_mem core.pc)) (fetch core))
    else ended (raise (fault core.inst_mem).error (record core { inst_mem = fault core.inst_mem })))
step-fetch_example = step-fetch stdio floats host core refl (omega arith)

stdio-Reads : Reads stdio
stdio-Reads = record { next = λ b rest. refl; eof = refl }

-- Twelve bytes are asked for and three are there, the second of them a NUL.
abbrev reading_core : Core
reading_core = record core { input = b'h' ∷ 0 ∷ b'i' ∷ [] }

sout-sin_example :
    ((sout stdio (with_inst 33 (sin stdio reading_core))).output
      ≡ reading_core.output ++ until_nul (line 12 reading_core.input))
    × ((sout stdio (with_inst 33 (sin stdio reading_core))).input ≡ drop 12 reading_core.input)
    × ((sout stdio (with_inst 33 (sin stdio reading_core))).registers ≡ reading_core.registers)
    × ((sout stdio (with_inst 33 (sin stdio reading_core))).stop_running
        ≡ reading_core.stop_running)
sout-sin_example =
    sout-sin stdio-Reads reading_core 33 (omega arith, (omega arith, (omega arith, tt))) mem-IsValid
      refl refl refl refl

out_reg-in_reg_example :
    ((out_reg stdio hhi (with_inst 33 (in_reg stdio hhu reading_core))).output
      ≡ reading_core.output ++ stdio.print hhi b'h')
    × ((in_reg stdio hhu reading_core).input ≡ 0 ∷ b'i' ∷ [])
    × ((in_reg stdio hhu reading_core).registers 1 / 256 ≡ reading_core.registers 1 / 256)
    × ((r : ℕ) → 1 ≢ r → (in_reg stdio hhu reading_core).registers r ≡ reading_core.registers r)
out_reg-in_reg_example =
    out_reg-in_reg stdio hhu hhi reading_core 33 b'h' (0 ∷ b'i' ∷ []) refl
      (λ x. ap (λ v. v ∷ []) {x = x % 256 % 256} (omega arith)) refl refl

console_case-Extends_example : Extends core (console_case stdio op_cout core)
console_case-Extends_example = console_case-Extends stdio op_cout core

dispatch-Asks_example : Asks core (dispatch stdio floats host op_div_imm core)
dispatch-Asks_example = dispatch-Asks stdio floats host op_div_imm core

abbrev no_stack : Grants
no_stack = record {
  core = true;
  cond = true;
  lock = true;
  registers = true;
  stack_mem = false;
  ras = true;
}

build-Accounted_example : Accounted no_stack (build no_stack)
build-Accounted_example = build-Accounted no_stack
