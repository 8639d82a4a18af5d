-- ===== src/Core/ArithMem.antt =====
-- The arithmetic instructions of merry/merry_core.c with an operand in the data memory. The width is
-- the read function that `merry_runCore` hands on. The address is masked to its low four bits.
use merry_v.Common.{ℕ, ◌/◌, ◌%◌, true, Option, none, some, if◌then◌else◌, ◌==◌, ltb}
use merry_v.DMemory.{DMemory}
use merry_v.DMemory.Access.{Width, read}
use merry_v.Core.{
  Core, Host, lower_top_reg, address48, set_reg, update_flags, stop_with, div_by_zero, cmp_inst,
}
use merry_v.Core.Arith.{add64, sub64, mul64}

-- What every instruction does with the outcome of a read: on RET_FAILURE the memory's error is
-- raised and the core stops, otherwise the instruction goes on with the value.
unfoldable pub with_read : Option ℕ × DMemory → Core → (ℕ → Core → Core) → Core
with_read (out, m) c next = elim out [
  | none ↦ stop_with m.error (record c { data_mem = m })
  | some temp ↦ next temp (record c { data_mem = m })
]

-- `(current & 0xFFFFFFFFFFFF) & 15`
abbrev pub mem_address : ℕ → ℕ
mem_address current = address48 current % 16

unfoldable pub mem_frame : (ℕ → ℕ → ℕ) → Width → Host → Core → Core
unfolding with_read
mem_frame op w e c =
    let reg = lower_top_reg c.current_inst in
    with_read (read w c.data_mem (mem_address c.current_inst)) c
      (λ temp c'. update_flags e (set_reg reg (op (c'.registers reg) temp) c'))

unfoldable pub add_mem : Width → Host → Core → Core
unfolding mem_frame
add_mem = mem_frame add64

unfoldable pub sub_mem : Width → Host → Core → Core
unfolding mem_frame
sub_mem = mem_frame sub64

unfoldable pub mul_mem : Width → Host → Core → Core
unfolding mem_frame
mul_mem = mem_frame mul64

unfoldable pub div_mem_frame : (ℕ → ℕ → ℕ) → Width → Host → Core → Core
unfolding with_read
div_mem_frame op w e c =
    let reg = lower_top_reg c.current_inst in
    with_read (read w c.data_mem (mem_address c.current_inst)) c (λ temp c'.
      if temp == 0
      then stop_with div_by_zero c'
      else update_flags e (set_reg reg (op (c'.registers reg) temp) c'))

unfoldable pub div_mem : Width → Host → Core → Core
unfolding div_mem_frame
div_mem = div_mem_frame ◌/◌

unfoldable pub mod_mem : Width → Host → Core → Core
unfolding div_mem_frame
mod_mem = div_mem_frame ◌%◌

-- `greater` is set and never cleared.
unfoldable pub cmp_mem : Width → Host → Core → Core
unfolding with_read
cmp_mem w e c =
    let reg = c.registers (lower_top_reg c.current_inst) in
    with_read (read w c.data_mem (mem_address c.current_inst)) c (λ temp c'. record c' {
      flag = cmp_inst reg temp;
      greater = if ltb temp reg then true else c'.greater;
    })
