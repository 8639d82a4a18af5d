-- ===== src/Core/Switch/Access.antt =====
-- The later cases of the switch in `merry_runCore` of merry/merry_core.c, from the loads and stores on,
-- and OP_CMPXCHG.
use merry_v.Common.{Option, none, some, ◌==◌, none, some, if◌then◌else◌}
use merry_v.Block.Endian.{load, store}
use merry_v.DMemory.{DMemory, DAddress, page_at, set_page}
use merry_v.DMemory.Access.{byte, word, dword, qword}
use merry_v.DMemory.Address.{get_qword_address}
use merry_v.Core.{
  Core, Host, lower_top_reg, upper_top_reg, lower_down_reg, address48, set_reg, update_flags,
  stop_with, zero_out_reg,
}
use merry_v.Core.Opcodes.{
  Opcode, op_add_memb, op_add_memd, op_add_memq, op_add_memw, op_atomic_load, op_atomic_loadb,
  op_atomic_loadd, op_atomic_loadw, op_atomic_store, op_atomic_storeb, op_atomic_stored,
  op_atomic_storew, op_call_excp, op_cflags, op_clc, op_cln, op_clo, op_clz, op_cmpxchg,
  op_div_memb, op_div_memd, op_div_memq, op_div_memw, op_excg, op_excg16, op_excg32, op_excg8,
  op_fadd32_mem, op_fadd_mem, op_fdiv32_mem, op_fdiv_mem, op_fmul32_mem, op_fmul_mem, op_fsub32_mem,
  op_fsub_mem, op_intr, op_jc, op_je, op_jg, op_jge, op_jn, op_jnc, op_jne, op_jng, op_jnn, op_jno,
  op_jns, op_jnz, op_jo, op_js, op_jse, op_jz, op_load, op_load_reg, op_loadb, op_loadb_reg,
  op_loadd, op_loadd_reg, op_loadw, op_loadw_reg, op_loop, op_mod_memb, op_mod_memd, op_mod_memq,
  op_mod_memw, op_mov16, op_mov32, op_mov8, op_mul_memb, op_mul_memd, op_mul_memq, op_mul_memw,
  op_reset, op_set_excp, op_store, op_store_reg, op_storeb, op_storeb_reg, op_stored, op_stored_reg,
  op_storew, op_storew_reg, op_sub_memb, op_sub_memd, op_sub_memq, op_sub_memw, op_sva_mem,
  op_svc_mem,
}
use merry_v.Core.ArithMem
use merry_v.Core.Floats
use merry_v.Core.Moves
use merry_v.Core.StackOps
use merry_v.Core.LoadStore
use merry_v.Core.Control
use merry_v.Core.Console.{Stdio, console_case}

-- OP_CMPXCHG: `atomic_compare_exchange_strong` on eight bytes of the page from the address on. The
-- address is not tested against the end of the page: cells behind it are the host's.
unfoldable pub exchanged : Host → Option DAddress × DMemory → Core → Core
unfolding stop_with
exchanged e (none, m) c = stop_with m.error (record c { data_mem = m })
exchanged e (some addr, m) c =
    let page = page_at m addr.page in
    let expected = upper_top_reg c.current_inst in
    let found = load 8 page addr.offset in
    let desired = c.registers (lower_top_reg c.current_inst) in
    update_flags e (
      if found == c.registers expected
      then record c { data_mem = set_page m addr.page (store 8 page addr.offset desired) }
      else set_reg expected found (record c { data_mem = m }))

unfoldable pub cmpxchg : Host → Core → Core
unfolding get_qword_address exchanged
cmpxchg e c = exchanged e (get_qword_address c.data_mem (address48 c.current_inst)) c

-- The cases of memory operands and exceptions.
unfoldable pub switch_operands : Stdio → Floats.Floats → Host → Opcode → Core → Core
unfolding console_case
switch_operands io fl e op_add_memb c = ArithMem.add_mem byte e c
switch_operands io fl e op_add_memw c = ArithMem.add_mem word e c
switch_operands io fl e op_add_memd c = ArithMem.add_mem dword e c
switch_operands io fl e op_add_memq c = ArithMem.add_mem qword e c
switch_operands io fl e op_sub_memb c = ArithMem.sub_mem byte e c
switch_operands io fl e op_sub_memw c = ArithMem.sub_mem word e c
switch_operands io fl e op_sub_memd c = ArithMem.sub_mem dword e c
switch_operands io fl e op_sub_memq c = ArithMem.sub_mem qword e c
switch_operands io fl e op_mul_memb c = ArithMem.mul_mem byte e c
switch_operands io fl e op_mul_memw c = ArithMem.mul_mem word e c
switch_operands io fl e op_mul_memd c = ArithMem.mul_mem dword e c
switch_operands io fl e op_mul_memq c = ArithMem.mul_mem qword e c
switch_operands io fl e op_div_memb c = ArithMem.div_mem byte e c
switch_operands io fl e op_div_memw c = ArithMem.div_mem word e c
switch_operands io fl e op_div_memd c = ArithMem.div_mem dword e c
switch_operands io fl e op_div_memq c = ArithMem.div_mem qword e c
switch_operands io fl e op_mod_memb c = ArithMem.mod_mem byte e c
switch_operands io fl e op_mod_memw c = ArithMem.mod_mem word e c
switch_operands io fl e op_mod_memd c = ArithMem.mod_mem dword e c
switch_operands io fl e op_mod_memq c = ArithMem.mod_mem qword e c
switch_operands io fl e op_fadd32_mem c = Floats.fadd32_mem fl c
switch_operands io fl e op_fadd_mem c = Floats.fadd64_mem fl c
switch_operands io fl e op_fsub32_mem c = Floats.fsub32_mem fl c
switch_operands io fl e op_fsub_mem c = Floats.fsub64_mem fl c
switch_operands io fl e op_fmul32_mem c = Floats.fmul32_mem fl c
switch_operands io fl e op_fmul_mem c = Floats.fmul64_mem fl c
switch_operands io fl e op_fdiv32_mem c = Floats.fdiv32_mem fl c
switch_operands io fl e op_fdiv_mem c = Floats.fdiv64_mem fl c
switch_operands io fl e op_set_excp c = Control.set_excp c
switch_operands io fl e op_call_excp c = StackOps.call_excp e c
switch_operands io fl e op_sva_mem c = StackOps.sva_mem c
switch_operands io fl e op_svc_mem c = StackOps.svc_mem c
switch_operands io fl e op c = console_case io op c

-- The cases of conditional jumps, LOOP, INTR and CMPXCHG.
unfoldable pub switch_jumps : Stdio → Floats.Floats → Host → Opcode → Core → Core
unfolding switch_operands cmpxchg
switch_jumps io fl e op_jz c = Control.jz c
switch_jumps io fl e op_je c = Control.jz c
switch_jumps io fl e op_jnz c = Control.jnz c
switch_jumps io fl e op_jne c = Control.jnz c
switch_jumps io fl e op_jnc c = Control.jnc c
switch_jumps io fl e op_jc c = Control.jc c
switch_jumps io fl e op_jno c = Control.jno c
switch_jumps io fl e op_jo c = Control.jo c
switch_jumps io fl e op_jnn c = Control.jnn c
switch_jumps io fl e op_jn c = Control.jn c
switch_jumps io fl e op_js c = Control.jng c
switch_jumps io fl e op_jng c = Control.jng c
switch_jumps io fl e op_jns c = Control.jg c
switch_jumps io fl e op_jg c = Control.jg c
switch_jumps io fl e op_jge c = Control.jge c
switch_jumps io fl e op_jse c = Control.jse c
switch_jumps io fl e op_loop c = Control.loop c
switch_jumps io fl e op_intr c = Control.intr c
switch_jumps io fl e op_cmpxchg c = cmpxchg e c
switch_jumps io fl e op c = switch_operands io fl e op c

-- The cases of exchanges and the flags.
unfoldable pub switch_exchange : Stdio → Floats.Floats → Host → Opcode → Core → Core
unfolding switch_jumps
switch_exchange io fl e op_excg8 c = Moves.excg8 c
switch_exchange io fl e op_excg16 c = Moves.excg16 c
switch_exchange io fl e op_excg32 c = Moves.excg32 c
switch_exchange io fl e op_excg c = Moves.excg c
switch_exchange io fl e op_mov8 c = Moves.mov8 c
switch_exchange io fl e op_mov16 c = Moves.mov16 c
switch_exchange io fl e op_mov32 c = Moves.mov32 c
switch_exchange io fl e op_cflags c = Control.cflags c
switch_exchange io fl e op_reset c = zero_out_reg c
switch_exchange io fl e op_clc c = Control.clc c
switch_exchange io fl e op_clz c = Control.clz c
switch_exchange io fl e op_cln c = Control.cln c
switch_exchange io fl e op_clo c = Control.clo c
switch_exchange io fl e op c = switch_jumps io fl e op c

-- The cases of loads and stores.
unfoldable pub switch_transfer : Stdio → Floats.Floats → Host → Opcode → Core → Core
unfolding switch_exchange
switch_transfer io fl e op_load c = LoadStore.load (address48 c.current_inst) c
switch_transfer io fl e op_store c = LoadStore.store (address48 c.current_inst) c
switch_transfer io fl e op_loadb c = LoadStore.loadb (address48 c.current_inst) c
switch_transfer io fl e op_storeb c = LoadStore.storeb (address48 c.current_inst) c
switch_transfer io fl e op_loadw c = LoadStore.loadw (address48 c.current_inst) c
switch_transfer io fl e op_storew c = LoadStore.storew (address48 c.current_inst) c
switch_transfer io fl e op_loadd c = LoadStore.loadd (address48 c.current_inst) c
switch_transfer io fl e op_stored c = LoadStore.stored (address48 c.current_inst) c
switch_transfer io fl e op_atomic_load c = LoadStore.atm_load (address48 c.current_inst) c
switch_transfer io fl e op_atomic_store c = LoadStore.atm_store (address48 c.current_inst) c
switch_transfer io fl e op_atomic_loadb c = LoadStore.atm_loadb (address48 c.current_inst) c
switch_transfer io fl e op_atomic_storeb c = LoadStore.atm_storeb (address48 c.current_inst) c
switch_transfer io fl e op_atomic_loadw c = LoadStore.atm_loadw (address48 c.current_inst) c
switch_transfer io fl e op_atomic_storew c = LoadStore.atm_storew (address48 c.current_inst) c
switch_transfer io fl e op_atomic_loadd c = LoadStore.atm_loadd e (address48 c.current_inst) c
switch_transfer io fl e op_atomic_stored c = LoadStore.atm_stored (address48 c.current_inst) c
switch_transfer io fl e op_load_reg c =
    LoadStore.load_reg (c.registers (lower_down_reg c.current_inst)) c
switch_transfer io fl e op_store_reg c =
    LoadStore.store_reg (c.registers (lower_down_reg c.current_inst)) c
switch_transfer io fl e op_loadb_reg c =
    LoadStore.loadb_reg (c.registers (lower_down_reg c.current_inst)) c
switch_transfer io fl e op_storeb_reg c =
    LoadStore.storeb_reg (c.registers (lower_down_reg c.current_inst)) c
switch_transfer io fl e op_loadw_reg c =
    LoadStore.loadw_reg (c.registers (lower_down_reg c.current_inst)) c
switch_transfer io fl e op_storew_reg c =
    LoadStore.storew_reg (c.registers (lower_down_reg c.current_inst)) c
switch_transfer io fl e op_loadd_reg c =
    LoadStore.loadd_reg (c.registers (lower_down_reg c.current_inst)) c
switch_transfer io fl e op_stored_reg c =
    LoadStore.stored_reg (c.registers (lower_down_reg c.current_inst)) c
switch_transfer io fl e op c = switch_exchange io fl e op c
