-- ===== src/Core/Arith.antt =====
-- The arithmetic instructions of merry/merry_core.c on registers and immediates. Registers are
-- 64-bit words and wrap; a signed sum, difference or product has the bits of the unsigned one.
use merry_v.Common.{ℕ, ◌+◌, ◌-◌, ◌*◌, ◌/◌, ◌%◌, if◌then◌else◌, ◌==◌, wrap, word_mod, bit_or}
use merry_v.Core.{
  Core, Host, lower_top_reg, upper_top_reg, lower_up_reg, lower_down_reg, lower_4byte_imm, set_reg,
  update_flags, stop_with, div_by_zero,
}

abbrev pub add64 : ℕ → ℕ → ℕ
add64 a b = wrap (a + b)

abbrev pub sub64 : ℕ → ℕ → ℕ
sub64 a b = wrap (a + word_mod - b)

abbrev pub mul64 : ℕ → ℕ → ℕ
mul64 a b = wrap (a * b)

-- _ArithMeticImmFrame_
unfoldable pub imm_frame : (ℕ → ℕ → ℕ) → Host → Core → Core
imm_frame op e c =
    let current = c.current_inst in
    let reg = lower_top_reg current in
    update_flags e (set_reg reg (op (c.registers reg) (lower_4byte_imm current)) c)

-- _ArithMeticRegFrame_
unfoldable pub reg_frame : (ℕ → ℕ → ℕ) → Host → Core → Core
reg_frame op e c =
    let current = c.current_inst in
    let reg = lower_up_reg current in
    update_flags e (set_reg reg (op (c.registers reg) (c.registers (lower_down_reg current))) c)

unfoldable pub add_imm : Host → Core → Core
unfolding imm_frame
add_imm = imm_frame add64

unfoldable pub add_reg : Host → Core → Core
unfolding reg_frame
add_reg = reg_frame add64

-- What follows the frame, `if (core->flag.negative == 0) core->greater == 1;`, changes nothing.
unfoldable pub sub_imm : Host → Core → Core
unfolding imm_frame
sub_imm = imm_frame sub64

unfoldable pub sub_reg : Host → Core → Core
unfolding reg_frame
sub_reg = reg_frame sub64

unfoldable pub mul_imm : Host → Core → Core
unfolding imm_frame
mul_imm = imm_frame mul64

unfoldable pub mul_reg : Host → Core → Core
unfolding reg_frame
mul_reg = reg_frame mul64

-- The body that the divisions and remainders share: the destination, the divisor and the operation.
unfoldable pub div_frame : (ℕ → ℕ → ℕ) → ℕ → ℕ → Host → Core → Core
div_frame op reg divisor e c =
    if divisor == 0
    then stop_with div_by_zero c
    else update_flags e (set_reg reg (op (c.registers reg) divisor) c)

unfoldable pub div_imm : Host → Core → Core
unfolding div_frame
div_imm e c = div_frame ◌/◌ (lower_top_reg c.current_inst) (lower_4byte_imm c.current_inst) e c

unfoldable pub div_reg : Host → Core → Core
unfolding div_frame
div_reg e c =
    div_frame ◌/◌ (lower_up_reg c.current_inst) (c.registers (lower_down_reg c.current_inst)) e c

unfoldable pub mod_imm : Host → Core → Core
unfolding div_frame
mod_imm e c = div_frame ◌%◌ (lower_top_reg c.current_inst) (lower_4byte_imm c.current_inst) e c

unfoldable pub mod_reg : Host → Core → Core
unfolding div_frame
mod_reg e c =
    div_frame ◌%◌ (upper_top_reg c.current_inst) (c.registers (lower_top_reg c.current_inst)) e c

-- 0xFFFFFFFFFF000000, the constant of _sign_extend32_
abbrev pub extend32 : ℕ
extend32 = 18446744073692774400

-- _SArithMeticImmFrame_: the macros are not parenthesised, so the operation takes the whole
-- instruction, and the mask and the extension apply to its result.
unfoldable pub simm_frame : (ℕ → ℕ → ℕ) → Host → Core → Core
simm_frame op e c =
    let current = c.current_inst in
    let reg = lower_top_reg current in
    update_flags e (set_reg reg (bit_or (op (c.registers reg) current % 4294967296) extend32) c)

unfoldable pub iadd_imm : Host → Core → Core
unfolding simm_frame
iadd_imm = simm_frame add64

unfoldable pub iadd_reg : Host → Core → Core
unfolding reg_frame
iadd_reg = reg_frame add64

unfoldable pub isub_imm : Host → Core → Core
unfolding simm_frame
isub_imm = simm_frame sub64

unfoldable pub isub_reg : Host → Core → Core
unfolding reg_frame
isub_reg = reg_frame sub64

unfoldable pub imul_imm : Host → Core → Core
unfolding simm_frame
imul_imm = simm_frame mul64

unfoldable pub imul_reg : Host → Core → Core
unfolding reg_frame
imul_reg = reg_frame mul64

-- `current & _sign_extend32_(0xFFFFFFFF)` is `(current & 0xFFFFFFFF) | 0xFFFFFFFFFF000000`; the
-- operands are unsigned.
unfoldable pub idiv_imm : Host → Core → Core
unfolding div_frame
idiv_imm e c =
    div_frame ◌/◌ (lower_top_reg c.current_inst) (bit_or (c.current_inst % 4294967296) extend32) e c

unfoldable pub idiv_reg : Host → Core → Core
unfolding div_frame
idiv_reg e c =
    div_frame ◌/◌ (lower_up_reg c.current_inst) (c.registers (lower_down_reg c.current_inst)) e c

unfoldable pub imod_imm : Host → Core → Core
unfolding div_frame
imod_imm e c =
    div_frame ◌%◌ (lower_top_reg c.current_inst) (bit_or (c.current_inst % 4294967296) extend32) e c

unfoldable pub imod_reg : Host → Core → Core
unfolding div_frame
imod_reg e c =
    div_frame ◌%◌ (lower_up_reg c.current_inst) (c.registers (lower_down_reg c.current_inst)) e c
