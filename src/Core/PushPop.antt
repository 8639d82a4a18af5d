-- ===== src/Core/PushPop.antt =====
-- PUSH_REG, PUSH_IMM and POP of merry/merry_core.c on the stack of a core.
use merry_v.Common.{
  ℕ, ◌+◌, ◌≤◌, ◌<◌, ◌≡◌, inl, inr, refl, false, arith, ◌==◌, Bool-cases, update, update_self, wrap,
  word_mod, word_max,
}
use merry_v.Core.{Core, lower_down_reg, raise, stop_with, with_inst}
use merry_v.Core.StackOps.{push_reg, pop, put, take, is_stack_full}

-- The number of values on the stack: `sp` is the index of the top, and 2 ^ 64 - 1 if there is none.
unfoldable pub depth : Core → ℕ
depth c = wrap (c.sp + 1)

-- A stack pointer that pushes can reach: the full test lets it go to 131072.
pub record IsStack (c : Core) : Type 0 where
  pub word : c.sp < word_mod
  pub reached : depth c ≤ 131073

-- PUSH_REG on a stack that is in reach and not full, then POP into any register, gives that
-- register the value pushed and restores the stack pointer; the only other change is the cell
-- above the top.
pub pop-push_reg :
    (c : Core) (inst : ℕ)
    → IsStack c
    → is_stack_full c ≡ false
    → pop (with_inst inst (push_reg c)) ≡ record c {
      current_inst = inst;
      stack_mem = update c.stack_mem (depth c) (c.registers (lower_down_reg c.current_inst));
      registers =
          update c.registers (lower_down_reg inst) (c.registers (lower_down_reg c.current_inst));
    }
unfolding depth push_reg pop put take
pop-push_reg c inst ok room =
    let back : wrap (wrap (c.sp + 1) + word_max) ≡ c.sp = omega arith in
    let held : (wrap (c.sp + 1) == word_max) ≡ false = ground arith in
    rw
      (
        room,
        held,
        back,
        update_self c.stack_mem (depth c) (c.registers (lower_down_reg c.current_inst)),
      )
      refl

-- PUSH_REG keeps the stack pointer in reach, whether it is refused or not: at most 131073
-- values, which is one more than the stack has cells.
pub push_reg-IsStack : (c : Core) → IsStack c → IsStack (push_reg c)
unfolding depth push_reg put stop_with raise
push_reg-IsStack c ok = elim (Bool-cases (is_stack_full c)) [
  | inl full ↦ rw full (record { word = ok.word; reached = ok.reached })
  | inr room ↦ rw room (record { word = omega arith; reached = ground arith })
]

-- With the stack pointer on the last of the 131072 cells PUSH_REG is not refused: it writes the
-- cell behind them and does not stop the core.
pub push_reg-past_end :
    (c : Core)
    → c.sp ≡ 131071
    → ((push_reg c).sp ≡ 131072)
      × ((push_reg c).stack_mem 131072 ≡ c.registers (lower_down_reg c.current_inst))
      × ((push_reg c).stop_running ≡ c.stop_running)
unfolding push_reg put
push_reg-past_end c e = ground arith
