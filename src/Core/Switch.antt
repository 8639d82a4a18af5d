-- ===== src/Core/Switch.antt =====
-- The switch over the opcodes in `merry_runCore` of merry/merry_core.c, its cases in groups that follow
-- the source.
pub mod Access
use merry_v.Common.{ℕ, ◌==◌, Option, none, some, if◌then◌else◌}
use merry_v.Block.Endian.{load, store}
use merry_v.DMemory.{page_at, set_page}
use merry_v.DMemory.Access.{byte, word, dword, qword}
use merry_v.DMemory.Address.{get_qword_address}
use merry_v.Core.{
  Core, Host, lower_top_reg, upper_top_reg, lower_down_reg, address48, set_reg, update_flags,
  stop_with, zero_out_reg,
}
use merry_v.Core.Opcodes.{
  Opcode, op_add_imm, op_add_reg, op_and_imm, op_and_reg, op_call, op_cmp_imm, op_cmp_imm_memb,
  op_cmp_imm_memd, op_cmp_imm_memq, op_cmp_imm_memw, op_cmp_reg, op_dec, op_div_imm, op_div_reg,
  op_fadd, op_fadd32, op_fdiv, op_fdiv32, op_fmul, op_fmul32, op_fsub, op_fsub32, op_halt,
  op_iadd_imm, op_iadd_reg, op_idiv_imm, op_idiv_reg, op_imod_imm, op_imod_reg, op_imul_imm,
  op_imul_reg, op_inc, op_isub_imm, op_isub_reg, op_jmp_addr, op_jmp_off, op_lea, op_lshift,
  op_mod_imm, op_mod_reg, op_move_imm, op_move_imm_64, op_move_reg, op_move_reg16, op_move_reg32,
  op_move_reg8, op_movesx_imm16, op_movesx_imm32, op_movesx_imm8, op_movesx_reg16, op_movesx_reg32,
  op_movesx_reg8, op_mul_imm, op_mul_reg, op_nop, op_not, op_or_imm, op_or_reg, op_pop, op_popa,
  op_push_imm, op_push_reg, op_pusha, op_ret, op_rshift, op_sub_imm, op_sub_reg, op_sva, op_svc,
  op_xor_imm, op_xor_reg,
}
use merry_v.Core.Arith
use merry_v.Core.ArithMem
use merry_v.Core.Floats
use merry_v.Core.Moves
use merry_v.Core.Bits
use merry_v.Core.StackOps
use merry_v.Core.LoadStore
use merry_v.Core.Control
use merry_v.Core.Console.{Stdio}
use merry_v.Core.Switch.Access.{switch_transfer}

-- The cases of bits, comparison, INC, DEC and LEA.
unfoldable pub switch_bits : Stdio → Floats.Floats → Host → Opcode → Core → Core
unfolding switch_transfer
switch_bits io fl e op_and_imm c = Bits.and_imm c
switch_bits io fl e op_and_reg c = Bits.and_reg c
switch_bits io fl e op_or_imm c = Bits.or_imm c
switch_bits io fl e op_or_reg c = Bits.or_reg c
switch_bits io fl e op_xor_imm c = Bits.xor_imm c
switch_bits io fl e op_xor_reg c = Bits.xor_reg c
switch_bits io fl e op_not c = Bits.not_reg c
switch_bits io fl e op_lshift c = Bits.lshift e c
switch_bits io fl e op_rshift c = Bits.rshift e c
switch_bits io fl e op_cmp_imm c = Control.cmp_imm c
switch_bits io fl e op_cmp_imm_memb c = ArithMem.cmp_mem byte e c
switch_bits io fl e op_cmp_imm_memw c = ArithMem.cmp_mem word e c
switch_bits io fl e op_cmp_imm_memd c = ArithMem.cmp_mem dword e c
switch_bits io fl e op_cmp_imm_memq c = ArithMem.cmp_mem qword e c
switch_bits io fl e op_cmp_reg c = Control.cmp_reg c
switch_bits io fl e op_inc c = Moves.inc c
switch_bits io fl e op_dec c = Moves.dec c
switch_bits io fl e op_lea c = Moves.lea c
switch_bits io fl e op c = switch_transfer io fl e op c

-- The cases of jumps, calls and the stack.
unfoldable pub switch_calls : Stdio → Floats.Floats → Host → Opcode → Core → Core
unfolding switch_bits
switch_calls io fl e op_jmp_off c = Control.jmp_off c
switch_calls io fl e op_jmp_addr c = Control.jmp_addr c
switch_calls io fl e op_call c = StackOps.op_call e c
switch_calls io fl e op_ret c = StackOps.op_ret c
switch_calls io fl e op_sva c = StackOps.sva c
switch_calls io fl e op_svc c = StackOps.svc c
switch_calls io fl e op_push_imm c = StackOps.push_imm c
switch_calls io fl e op_push_reg c = StackOps.push_reg c
switch_calls io fl e op_pop c = StackOps.pop c
switch_calls io fl e op_pusha c = StackOps.pusha c
switch_calls io fl e op_popa c = StackOps.popa c
switch_calls io fl e op c = switch_bits io fl e op c

-- The cases of moves.
unfoldable pub switch_moves : Stdio → Floats.Floats → Host → Opcode → Core → Core
unfolding switch_calls
switch_moves io fl e op_move_imm c = Moves.move_imm c
switch_moves io fl e op_move_imm_64 c = Moves.move_imm_64 c
switch_moves io fl e op_move_reg c = Moves.move_reg c
switch_moves io fl e op_move_reg8 c = Moves.move_reg8 c
switch_moves io fl e op_move_reg16 c = Moves.move_reg16 c
switch_moves io fl e op_move_reg32 c = Moves.move_reg32 c
switch_moves io fl e op_movesx_imm8 c = Moves.movesx_imm8 c
switch_moves io fl e op_movesx_imm16 c = Moves.movesx_imm16 c
switch_moves io fl e op_movesx_imm32 c = Moves.movesx_imm32 c
switch_moves io fl e op_movesx_reg8 c = Moves.movesx_reg8 c
switch_moves io fl e op_movesx_reg16 c = Moves.movesx_reg16 c
switch_moves io fl e op_movesx_reg32 c = Moves.movesx_reg32 c
switch_moves io fl e op c = switch_calls io fl e op c

-- The switch: the cases of arithmetic, and then the others.
unfoldable pub dispatch : Stdio → Floats.Floats → Host → Opcode → Core → Core
unfolding switch_moves
dispatch io fl e op_nop c = c
dispatch io fl e op_halt c = Control.halt c
dispatch io fl e op_add_imm c = Arith.add_imm e c
dispatch io fl e op_add_reg c = Arith.add_reg e c
dispatch io fl e op_sub_imm c = Arith.sub_imm e c
dispatch io fl e op_sub_reg c = Arith.sub_reg e c
dispatch io fl e op_mul_imm c = Arith.mul_imm e c
dispatch io fl e op_mul_reg c = Arith.mul_reg e c
dispatch io fl e op_div_imm c = Arith.div_imm e c
dispatch io fl e op_div_reg c = Arith.div_reg e c
dispatch io fl e op_mod_imm c = Arith.mod_imm e c
dispatch io fl e op_mod_reg c = Arith.mod_reg e c
dispatch io fl e op_iadd_imm c = Arith.iadd_imm e c
dispatch io fl e op_iadd_reg c = Arith.iadd_reg e c
dispatch io fl e op_isub_imm c = Arith.isub_imm e c
dispatch io fl e op_isub_reg c = Arith.isub_reg e c
dispatch io fl e op_imul_imm c = Arith.imul_imm e c
dispatch io fl e op_imul_reg c = Arith.imul_reg e c
dispatch io fl e op_idiv_imm c = Arith.idiv_imm e c
dispatch io fl e op_idiv_reg c = Arith.idiv_reg e c
dispatch io fl e op_imod_imm c = Arith.imod_imm e c
dispatch io fl e op_imod_reg c = Arith.imod_reg e c
dispatch io fl e op_fadd c = Floats.fadd fl c
dispatch io fl e op_fsub c = Floats.fsub fl c
dispatch io fl e op_fmul c = Floats.fmul fl c
dispatch io fl e op_fdiv c = Floats.fdiv fl c
dispatch io fl e op_fadd32 c = Floats.fadd32 fl c
dispatch io fl e op_fsub32 c = Floats.fsub32 fl c
dispatch io fl e op_fmul32 c = Floats.fmul32 fl c
dispatch io fl e op_fdiv32 c = Floats.fdiv32 fl c
dispatch io fl e op c = switch_moves io fl e op c
