-- ===== src/Core/Exchange.antt =====
-- EXCG and the sign-extending moves of merry/merry_core.c.
use merry_v.Common.{ℕ, ◌/◌, ◌%◌, ◌≡◌, refl, arith}
use merry_v.Core.{Core, lower_up_reg, lower_down_reg}
use merry_v.Core.Moves.{excg, movesx_reg32, move_reg32, sign_extend}

-- EXCG twice leaves every register as it was.
pub excg-excg : (c : Core) (i : ℕ) → (excg (excg c)).registers i ≡ c.registers i
unfolding excg
excg-excg c i = ground arith

-- EXCG gives each of its two registers the value of the other and leaves the rest alone.
pub excg-swaps :
    (c : Core)
    → ((excg c).registers (lower_up_reg c.current_inst)
        ≡ c.registers (lower_down_reg c.current_inst))
      × ((excg c).registers (lower_down_reg c.current_inst)
          ≡ c.registers (lower_up_reg c.current_inst))
unfolding excg
excg-swaps c = (ground arith, ground arith)

-- MOVESX_REG32 never extends a sign: it does what MOVE_REG32 does.
pub movesx_reg32-zero : (c : Core) → movesx_reg32 c ≡ move_reg32 c
unfolding movesx_reg32 move_reg32 sign_extend
movesx_reg32-zero c =
    let top : c.registers (lower_down_reg c.current_inst) % 16777216 / 2147483648 ≡ 0 =
      omega arith in
    rw top refl
