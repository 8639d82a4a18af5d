-- ===== src/Core/Cycle.antt =====
-- The loop of `merry_runCore` on the linear instruction memory.
use merry_v.Common.{
  ℕ, zero, suc, ◌+◌, ◌<◌, ◌≡◌, refl, ap, ◌∙◌, true, false, arith, if◌then◌else◌, ltb, Bool-cases,
  inl, inr, wrap, update_self,
}
use merry_v.Memory.{Memory, fault}
use merry_v.Memory
use merry_v.Memory.Laws.{flat, size, address_limit, read_inst-linear}
use merry_v.Core.{Core, Host, raise, lower_down_reg, get_immediate}
use merry_v.Core.Immediate.{get_immediate-linear}
use merry_v.Core.Floats.{Floats}
use merry_v.Core.Moves.{move_imm_64}
use merry_v.Core.Opcodes.{decode, op_move_imm_64}
use merry_v.Core.Console.{Stdio}
use merry_v.Core.Switch.{dispatch}
use merry_v.Core.Run.{Progress, running, ended, fetched, step, run_core}

-- The core once the instruction at its program counter is fetched.
abbrev pub fetch : Core → Core
fetch c = record c { current_inst = flat c.inst_mem c.pc; pc = c.pc + 1 }

move_imm_64-parts :
    (c : Core)
    → ((move_imm_64 c).pc ≡ (get_immediate c).1.pc)
      × ((move_imm_64 c).registers (lower_down_reg c.current_inst) ≡ (get_immediate c).0)
      × ((move_imm_64 c).stop_running ≡ (get_immediate c).1.stop_running)
unfolding move_imm_64
move_imm_64-parts c = (
  refl,
  update_self (get_immediate c).1.registers (lower_down_reg c.current_inst) (get_immediate c).0,
  refl,
)

module _ (io : Stdio) (fl : Floats) (e : Host) where
  -- A running core with its program counter below 2 ^ 49 executes the qword at the counter by
  -- its opcode with the counter moved behind it; if the instruction memory has no such address
  -- the loop ends with the error raised.
  pub step-fetch :
      (c : Core)
      → c.stop_running ≡ false
      → c.pc < address_limit
      → step io fl e c ≡ (
          if ltb c.pc (size c.inst_mem)
          then running (dispatch io fl e (decode (flat c.inst_mem c.pc)) (fetch c))
          else ended (raise (fault c.inst_mem).error (record c { inst_mem = fault c.inst_mem })))
  unfolding step fetched
  step-fetch c on lt =
      let next : wrap (c.pc + 1) ≡ c.pc + 1 = omega arith in
      ap (λ stop. if stop then ended c else fetched io fl e (Memory.read c.inst_mem c.pc) c) on
      ∙ ap (λ out. fetched io fl e out c) (read_inst-linear c.inst_mem c.pc lt)
      ∙ elim (Bool-cases (ltb c.pc (size c.inst_mem))) [
        | inl inside ↦ rw (inside, next) refl
        | inr outside ↦ rw outside refl
      ]

  -- A running core whose instruction is MOVE_IMM_64, with the program counter plus 2 inside the
  -- instruction memory and below 2 ^ 49, takes as immediate the qword two behind the
  -- instruction, skipping the one right behind it, and goes on with the counter at the
  -- immediate, which is fetched next.
  pub step-move_imm_64 :
      (c : Core)
      → c.stop_running ≡ false
      → c.pc + 2 < size c.inst_mem
      → c.pc + 2 < address_limit
      → decode (flat c.inst_mem c.pc) ≡ op_move_imm_64
      → (step io fl e c ≡ running (move_imm_64 (fetch c)))
        × ((move_imm_64 (fetch c)).pc ≡ c.pc + 2)
        × ((move_imm_64 (fetch c)).registers (lower_down_reg (flat c.inst_mem c.pc))
            ≡ flat c.inst_mem (c.pc + 2))
        × ((move_imm_64 (fetch c)).stop_running ≡ false)
  unfolding dispatch
  step-move_imm_64 c on inside lt op =
      let inst = flat c.inst_mem c.pc in
      let here : ltb c.pc (size c.inst_mem) ≡ true = ground arith in
      let there : ltb (c.pc + 1 + 1) (size c.inst_mem) ≡ true = ground arith in
      let two : c.pc + 1 + 1 ≡ c.pc + 2 = omega arith in
      let (pc, value, stop) = move_imm_64-parts (fetch c) in
      let (read, moved, goes_on) = get_immediate-linear (fetch c) (omega arith) in
      (
        step-fetch c on (omega arith)
            ∙ rw here (ap (λ opcode. running (dispatch io fl e opcode (fetch c))) op),
        pc ∙ moved ∙ two,
        value ∙ read ∙ rw there (ap (flat c.inst_mem) two),
        stop ∙ goes_on ∙ rw there on,
      )

  -- More rounds do not change how the loop ended.
  pub run_core-more :
      (n k : ℕ) (c : Core) {c' : Core}
      → run_core io fl e n c ≡ ended c'
      → run_core io fl e (n + k) c ≡ ended c'
  unfolding run_core
  run_core-more zero k c h = absurd (cc h)
  run_core-more (suc n) k c {c'} h =
      ap (λ m. run_core io fl e m c) {y = suc (n + k)} (omega arith)
      ∙ go (λ d. run_core-more n k d) (step io fl e c) h
    where
      go :
          ((d : Core) → run_core io fl e n d ≡ ended c' → run_core io fl e (n + k) d ≡ ended c')
          → (p : Progress)
          → (elim p [ running d ↦ run_core io fl e n d | ended d ↦ ended d ]) ≡ ended c'
          → (elim p [ running d ↦ run_core io fl e (n + k) d | ended d ↦ ended d ]) ≡ ended c'
      go more (running d) q = more d q
      go more (ended d) q = q
