-- ===== src/Core/Floats.antt =====
-- The floating-point instructions of merry/merry_core.c. A register is converted to a float as the
-- number that it holds, and the result back to a number; what the C compiler makes of that is an
-- argument.
use merry_v.Common.{ℕ, Bool, if◌then◌else◌}
use merry_v.DMemory.Access.{Width, dword, qword, read}
use merry_v.Core.{
  Core, lower_top_reg, lower_up_reg, lower_down_reg, set_reg, stop_with, div_by_zero,
}
use merry_v.Core.ArithMem.{with_read, mem_address}

-- The operations on the words of two registers in one float format: `add x y` is the word
-- `(mqword_t)((double)x + (double)y)`, `equal x y` is `(double)x == (double)y`, `is_zero x` is
-- `(double)x == 0.0`.
pub record Format : Type 0 where
  pub add : ℕ → ℕ → ℕ
  pub sub : ℕ → ℕ → ℕ
  pub mul : ℕ → ℕ → ℕ
  pub div : ℕ → ℕ → ℕ
  pub equal : ℕ → ℕ → Bool
  pub greater : ℕ → ℕ → Bool
  pub is_zero : ℕ → Bool

-- `float`, `double`, and `double` with its values narrowed to `float` where they are compared.
pub record Floats : Type 0 where
  pub single : Format
  pub double : Format
  pub narrowed : Format

-- `merry_cmp_floats64` and `merry_cmp_floats32`: zero and greater are both set and cleared.
unfoldable pub cmp_floats : Format → ℕ → ℕ → Core → Core
cmp_floats f val1 val2 c = record c {
  flag = record c.flag { zero = f.equal val1 val2 };
  greater = f.greater val1 val2;
}

-- The result goes to the first register, and is what the second value is then compared with.
unfoldable pub float_result : Format → ℕ → ℕ → ℕ → Core → Core
unfolding cmp_floats
float_result compared reg result operand c =
    cmp_floats compared result operand (set_reg reg result c)

-- The body that the instructions on two registers share. If both are the same register the
-- comparison sees the result twice.
unfoldable pub float_reg : Format → (ℕ → ℕ → ℕ) → Core → Core
unfolding cmp_floats
float_reg f op c =
    let reg1 = lower_up_reg c.current_inst in
    let reg2 = lower_down_reg c.current_inst in
    let c' = set_reg reg1 (op (c.registers reg1) (c.registers reg2)) c in
    cmp_floats f (c'.registers reg1) (c'.registers reg2) c'

-- The body that the instructions with an operand in the data memory share.
unfoldable pub float_mem : Format → (ℕ → ℕ → ℕ) → Width → Core → Core
unfolding with_read float_result
float_mem compared op w c =
    let reg = lower_top_reg c.current_inst in
    with_read (read w c.data_mem (mem_address c.current_inst)) c
      (λ temp c'. float_result compared reg (op (c'.registers reg) temp) temp c')

-- The divisions by memory test the divisor, and then multiply.
unfoldable pub float_div_mem : Format → Format → Width → Core → Core
unfolding with_read float_result
float_div_mem f compared w c =
    let reg = lower_top_reg c.current_inst in
    with_read (read w c.data_mem (mem_address c.current_inst)) c (λ temp c'.
      if f.is_zero temp
      then stop_with div_by_zero c'
      else float_result compared reg (f.mul (c'.registers reg) temp) temp c')

unfoldable pub fadd : Floats → Core → Core
unfolding float_reg
fadd fl = float_reg fl.double fl.double.add

unfoldable pub fadd32 : Floats → Core → Core
unfolding float_reg
fadd32 fl = float_reg fl.single fl.single.add

unfoldable pub fsub : Floats → Core → Core
unfolding float_reg
fsub fl = float_reg fl.double fl.double.sub

unfoldable pub fsub32 : Floats → Core → Core
unfolding float_reg
fsub32 fl = float_reg fl.single fl.single.sub

unfoldable pub fmul : Floats → Core → Core
unfolding float_reg
fmul fl = float_reg fl.double fl.double.mul

unfoldable pub fmul32 : Floats → Core → Core
unfolding float_reg
fmul32 fl = float_reg fl.single fl.single.mul

unfoldable pub fdiv : Floats → Core → Core
unfolding float_reg
fdiv fl = float_reg fl.double fl.double.div

unfoldable pub fdiv32 : Floats → Core → Core
unfolding float_reg
fdiv32 fl = float_reg fl.single fl.single.div

unfoldable pub fadd32_mem : Floats → Core → Core
unfolding float_mem
fadd32_mem fl = float_mem fl.single fl.single.add dword

-- The comparison is the one of `float`.
unfoldable pub fadd64_mem : Floats → Core → Core
unfolding float_mem
fadd64_mem fl = float_mem fl.narrowed fl.double.add qword

unfoldable pub fsub32_mem : Floats → Core → Core
unfolding float_mem
fsub32_mem fl = float_mem fl.single fl.single.sub dword

unfoldable pub fsub64_mem : Floats → Core → Core
unfolding float_mem
fsub64_mem fl = float_mem fl.double fl.double.sub qword

unfoldable pub fmul32_mem : Floats → Core → Core
unfolding float_mem
fmul32_mem fl = float_mem fl.single fl.single.mul dword

unfoldable pub fmul64_mem : Floats → Core → Core
unfolding float_mem
fmul64_mem fl = float_mem fl.double fl.double.mul qword

unfoldable pub fdiv32_mem : Floats → Core → Core
unfolding float_div_mem
fdiv32_mem fl = float_div_mem fl.single fl.single dword

unfoldable pub fdiv64_mem : Floats → Core → Core
unfolding float_div_mem
fdiv64_mem fl = float_div_mem fl.double fl.double qword
