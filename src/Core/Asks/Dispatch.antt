-- ===== src/Core/Asks/Dispatch.antt =====
-- The switch and the loop of `merry_runCore` in merry/merry_core.c, by what they ask of the request
-- handler.
use merry_v.Common.{
  ℕ, ◌+◌, ◌/◌, ◌%◌, bit_or, wrap, word_max, Option, none, some, Bool, true, false, if◌then◌else◌,
}
use merry_v.DMemory.Access.{byte, word, dword, qword}
use merry_v.DMemory.Access
use merry_v.DMemory.Bytes.{get_bytes}
use merry_v.Stack
use merry_v.Memory.{Memory}
use merry_v.Memory
use merry_v.Core.{
  Core, Host, zero_out_reg, reg_mc, address48, lower_top_reg, upper_top_reg, lower_up_reg,
  lower_down_reg, lower_4byte_imm,
}
use merry_v.Core.Console.{Stdio, hhi, hd, int, lld, hhu, hu, llu, lf, float}
use merry_v.Core.Opcodes.{
  Opcode, decode, op_add_memb, op_add_memd, op_add_memq, op_add_memw, op_and_imm, op_atomic_load,
  op_atomic_loadb, op_atomic_loadd, op_atomic_loadw, op_atomic_store, op_atomic_storeb,
  op_atomic_stored, op_atomic_storew, op_call, op_call_excp, op_cmp_imm, op_cmp_imm_memb,
  op_cmp_imm_memd, op_cmp_imm_memq, op_cmp_imm_memw, op_cmpxchg, op_div_imm, op_div_memb,
  op_div_memd, op_div_memq, op_div_memw, op_div_reg, op_fadd32_mem, op_fadd_mem, op_fdiv32_mem,
  op_fdiv_mem, op_fmul32_mem, op_fmul_mem, op_fsub32_mem, op_fsub_mem, op_halt, op_idiv_imm,
  op_idiv_reg, op_imod_imm, op_imod_reg, op_in, op_ind, op_inf, op_inf32, op_inq, op_intr, op_inw,
  op_load, op_load_reg, op_loadb, op_loadb_reg, op_loadd, op_loadd_reg, op_loadw, op_loadw_reg,
  op_loop, op_mod_imm, op_mod_memb, op_mod_memd, op_mod_memq, op_mod_memw, op_mod_reg,
  op_move_imm_64, op_mul_memb, op_mul_memd, op_mul_memq, op_mul_memw, op_or_imm, op_pop, op_popa,
  op_push_imm, op_push_reg, op_pusha, op_ret, op_sin, op_sout, op_store, op_store_reg, op_storeb,
  op_storeb_reg, op_stored, op_stored_reg, op_storew, op_storew_reg, op_sub_memb, op_sub_memd,
  op_sub_memq, op_sub_memw, op_sva, op_sva_mem, op_svc, op_svc_mem, op_uin, op_uind, op_uinq,
  op_uinw, op_xor_imm,
}
use merry_v.Core.Switch.{dispatch}
use merry_v.Core.Run.{Progress, running, ended, fetched, step}
use merry_v.Core.Arith.{add64, sub64, mul64, extend32}
use merry_v.Core.Floats.{Floats}
use merry_v.Core.Arith.{
  add_imm, add_reg, div_imm, div_reg, iadd_imm, iadd_reg, idiv_imm, idiv_reg, imod_imm, imod_reg,
  imul_imm, imul_reg, isub_imm, isub_reg, mod_imm, mod_reg, mul_imm, mul_reg, sub_imm, sub_reg,
}
use merry_v.Core.ArithMem.{add_mem, div_mem, mod_mem, mul_mem, sub_mem}
use merry_v.Core.Bits.{and_imm, and_reg, lshift, not_reg, or_imm, or_reg, rshift, xor_imm, xor_reg}
use merry_v.Core.Control.{
  cflags, clc, cln, clo, clz, cmp_imm, cmp_reg, jc, jg, jge, jmp_addr, jmp_off, jn, jnc, jng, jnn,
  jno, jnz, jo, jse, jz, set_excp,
}
use merry_v.Core.Floats.{
  fadd, fadd32, fadd32_mem, fadd64_mem, fdiv, fdiv32, fdiv32_mem, fdiv64_mem, fmul, fmul32,
  fmul32_mem, fmul64_mem, fsub, fsub32, fsub32_mem, fsub64_mem,
}
use merry_v.Core.LoadStore.{
  atm_load, atm_loadb, atm_loadd, atm_loadw, atm_store, atm_storeb, atm_stored, atm_storew, load,
  load_reg, loadb, loadb_reg, loadd, loadd_reg, loadw, loadw_reg, store, store_reg, storeb,
  storeb_reg, stored as stored_case, stored_reg, storew, storew_reg,
}
use merry_v.Core.Moves.{
  dec, excg, excg16, excg32, excg8, inc, lea, mov16, mov32, mov8, move_imm, move_imm_64, move_reg,
  move_reg16, move_reg32, move_reg8, movesx_imm16, movesx_imm32, movesx_imm8, movesx_reg16,
  movesx_reg32, movesx_reg8,
}
use merry_v.Core.StackOps.{call_excp, op_call as op_call_case, op_ret as op_ret_case, sva, svc}
use merry_v.Core.Asks.{Asks, silent, raise-Asks, get_immediate-Asks, load_from-Asks, store_to-Asks}
use merry_v.Core.Asks.Instructions.{
  cmp_mem-Asks, div_frame-Asks, div_mem_frame-Asks, float_div_mem-Asks, float_mem-Asks,
  mem_frame-Asks, sva_at-Asks, svc_at-Asks,
}
use merry_v.Core.Asks.Stacks.{
  called-Asks, cmpxchg-Asks, halt-Asks, intr-Asks, loop-Asks, pop-Asks, popa-Asks, push_imm-Asks,
  push_reg-Asks, pusha-Asks, returned-Asks, scanned-Asks, shown-Asks, sin-Asks, sva_mem-Asks,
  svc_mem-Asks,
}

-- An instruction, whatever its operands, makes one request of the core, raises one panic, or
-- leaves the request handler and what was asked of the threads alone.
pub dispatch-Asks :
    (io : Stdio) (fl : Floats) (e : Host) (op : Opcode) (c : Core) → Asks c (dispatch io fl e op c)
unfolding dispatch add_imm add_reg div_imm div_reg iadd_imm iadd_reg idiv_imm idiv_reg imod_imm
    imod_reg imul_imm imul_reg isub_imm isub_reg mod_imm mod_reg mul_imm mul_reg sub_imm sub_reg
    add_mem div_mem mod_mem mul_mem sub_mem and_imm and_reg lshift not_reg or_imm or_reg rshift
    xor_imm xor_reg cflags clc cln clo clz cmp_imm cmp_reg jc jg jge jmp_addr jmp_off jn jnc jng jnn
    jno jnz jo jse jz set_excp zero_out_reg fadd fadd32 fadd32_mem fadd64_mem fdiv fdiv32 fdiv32_mem
    fdiv64_mem fmul fmul32 fmul32_mem fmul64_mem fsub fsub32 fsub32_mem fsub64_mem atm_load
    atm_loadb atm_loadd atm_loadw atm_store atm_storeb atm_stored atm_storew load load_reg loadb
    loadb_reg loadd loadd_reg loadw loadw_reg store store_reg storeb storeb_reg stored_case
    stored_reg storew storew_reg dec excg excg16 excg32 excg8 inc lea mov16 mov32 mov8 move_imm
    move_imm_64 move_reg move_reg16 move_reg32 move_reg8 movesx_imm16 movesx_imm32 movesx_imm8
    movesx_reg16 movesx_reg32 movesx_reg8 call_excp op_call_case op_ret_case sva svc
dispatch-Asks io fl e op_and_imm c = get_immediate-Asks c
dispatch-Asks io fl e op_or_imm c = get_immediate-Asks c
dispatch-Asks io fl e op_xor_imm c = get_immediate-Asks c
dispatch-Asks io fl e op_cmp_imm c = get_immediate-Asks c
dispatch-Asks io fl e op_cmp_imm_memb c = cmp_mem-Asks c byte e
dispatch-Asks io fl e op_cmp_imm_memw c = cmp_mem-Asks c word e
dispatch-Asks io fl e op_cmp_imm_memd c = cmp_mem-Asks c dword e
dispatch-Asks io fl e op_cmp_imm_memq c = cmp_mem-Asks c qword e
dispatch-Asks io fl e op_call c =
    called-Asks (Stack.push e.realloc c.ras c.pc) (address48 c.current_inst) c
dispatch-Asks io fl e op_ret c = returned-Asks (Stack.pop c.ras) c
dispatch-Asks io fl e op_sva c = sva_at-Asks c (c.current_inst % 65536)
dispatch-Asks io fl e op_svc c = svc_at-Asks c (c.current_inst % 65536)
dispatch-Asks io fl e op_push_imm c = push_imm-Asks c
dispatch-Asks io fl e op_push_reg c = push_reg-Asks c
dispatch-Asks io fl e op_pop c = pop-Asks c
dispatch-Asks io fl e op_pusha c = pusha-Asks c
dispatch-Asks io fl e op_popa c = popa-Asks c
dispatch-Asks io fl e op_move_imm_64 c = get_immediate-Asks c
dispatch-Asks io fl e op_halt c = halt-Asks c
dispatch-Asks io fl e op_div_imm c =
    div_frame-Asks c ◌/◌ (lower_top_reg c.current_inst) (lower_4byte_imm c.current_inst) e
dispatch-Asks io fl e op_div_reg c =
    div_frame-Asks c ◌/◌ (lower_up_reg c.current_inst) (c.registers (lower_down_reg c.current_inst))
      e
dispatch-Asks io fl e op_mod_imm c =
    div_frame-Asks c ◌%◌ (lower_top_reg c.current_inst) (lower_4byte_imm c.current_inst) e
dispatch-Asks io fl e op_mod_reg c =
    div_frame-Asks c ◌%◌ (upper_top_reg c.current_inst) (c.registers (lower_top_reg c.current_inst))
      e
dispatch-Asks io fl e op_idiv_imm c =
    div_frame-Asks c ◌/◌ (lower_top_reg c.current_inst)
      (bit_or (c.current_inst % 4294967296) extend32) e
dispatch-Asks io fl e op_idiv_reg c =
    div_frame-Asks c ◌/◌ (lower_up_reg c.current_inst) (c.registers (lower_down_reg c.current_inst))
      e
dispatch-Asks io fl e op_imod_imm c =
    div_frame-Asks c ◌%◌ (lower_top_reg c.current_inst)
      (bit_or (c.current_inst % 4294967296) extend32) e
dispatch-Asks io fl e op_imod_reg c =
    div_frame-Asks c ◌%◌ (lower_up_reg c.current_inst) (c.registers (lower_down_reg c.current_inst))
      e
dispatch-Asks io fl e op_add_memb c = mem_frame-Asks c add64 byte e
dispatch-Asks io fl e op_add_memw c = mem_frame-Asks c add64 word e
dispatch-Asks io fl e op_add_memd c = mem_frame-Asks c add64 dword e
dispatch-Asks io fl e op_add_memq c = mem_frame-Asks c add64 qword e
dispatch-Asks io fl e op_sub_memb c = mem_frame-Asks c sub64 byte e
dispatch-Asks io fl e op_sub_memw c = mem_frame-Asks c sub64 word e
dispatch-Asks io fl e op_sub_memd c = mem_frame-Asks c sub64 dword e
dispatch-Asks io fl e op_sub_memq c = mem_frame-Asks c sub64 qword e
dispatch-Asks io fl e op_mul_memb c = mem_frame-Asks c mul64 byte e
dispatch-Asks io fl e op_mul_memw c = mem_frame-Asks c mul64 word e
dispatch-Asks io fl e op_mul_memd c = mem_frame-Asks c mul64 dword e
dispatch-Asks io fl e op_mul_memq c = mem_frame-Asks c mul64 qword e
dispatch-Asks io fl e op_div_memb c = div_mem_frame-Asks c ◌/◌ byte e
dispatch-Asks io fl e op_div_memw c = div_mem_frame-Asks c ◌/◌ word e
dispatch-Asks io fl e op_div_memd c = div_mem_frame-Asks c ◌/◌ dword e
dispatch-Asks io fl e op_div_memq c = div_mem_frame-Asks c ◌/◌ qword e
dispatch-Asks io fl e op_mod_memb c = div_mem_frame-Asks c ◌%◌ byte e
dispatch-Asks io fl e op_mod_memw c = div_mem_frame-Asks c ◌%◌ word e
dispatch-Asks io fl e op_mod_memd c = div_mem_frame-Asks c ◌%◌ dword e
dispatch-Asks io fl e op_mod_memq c = div_mem_frame-Asks c ◌%◌ qword e
dispatch-Asks io fl e op_fadd32_mem c = float_mem-Asks c fl.single fl.single.add dword
dispatch-Asks io fl e op_fadd_mem c = float_mem-Asks c fl.narrowed fl.double.add qword
dispatch-Asks io fl e op_fsub32_mem c = float_mem-Asks c fl.single fl.single.sub dword
dispatch-Asks io fl e op_fsub_mem c = float_mem-Asks c fl.double fl.double.sub qword
dispatch-Asks io fl e op_fmul32_mem c = float_mem-Asks c fl.single fl.single.mul dword
dispatch-Asks io fl e op_fmul_mem c = float_mem-Asks c fl.double fl.double.mul qword
dispatch-Asks io fl e op_fdiv32_mem c = float_div_mem-Asks c fl.single fl.single dword
dispatch-Asks io fl e op_fdiv_mem c = float_div_mem-Asks c fl.double fl.double qword
dispatch-Asks io fl e op_call_excp c =
    called-Asks (Stack.push e.realloc c.ras c.pc) (wrap (c.exception_address + word_max)) c
dispatch-Asks io fl e op_sva_mem c = sva_mem-Asks c
dispatch-Asks io fl e op_svc_mem c = svc_mem-Asks c
dispatch-Asks io fl e op_loop c = loop-Asks c
dispatch-Asks io fl e op_intr c = intr-Asks c
dispatch-Asks io fl e op_cmpxchg c = cmpxchg-Asks c e
dispatch-Asks io fl e op_load c =
    load_from-Asks (Access.read qword c.data_mem (address48 c.current_inst))
      (lower_top_reg c.current_inst) c
dispatch-Asks io fl e op_store c =
    store_to-Asks
      (Access.write qword c.data_mem (address48 c.current_inst)
        (c.registers (lower_top_reg c.current_inst)))
      c
dispatch-Asks io fl e op_loadb c =
    load_from-Asks (Access.read byte c.data_mem (address48 c.current_inst))
      (lower_top_reg c.current_inst) c
dispatch-Asks io fl e op_storeb c =
    store_to-Asks
      (Access.write byte c.data_mem (address48 c.current_inst)
        (c.registers (lower_top_reg c.current_inst)))
      c
dispatch-Asks io fl e op_loadw c =
    load_from-Asks (Access.read word c.data_mem (address48 c.current_inst))
      (lower_top_reg c.current_inst) c
dispatch-Asks io fl e op_storew c =
    store_to-Asks
      (Access.write word c.data_mem (address48 c.current_inst)
        (c.registers (lower_top_reg c.current_inst)))
      c
dispatch-Asks io fl e op_loadd c =
    load_from-Asks (Access.read dword c.data_mem (address48 c.current_inst))
      (lower_top_reg c.current_inst) c
dispatch-Asks io fl e op_stored c =
    store_to-Asks
      (Access.write dword c.data_mem (address48 c.current_inst)
        (c.registers (lower_top_reg c.current_inst)))
      c
dispatch-Asks io fl e op_atomic_load c =
    load_from-Asks (Access.read_qword_atm c.data_mem (address48 c.current_inst))
      (lower_top_reg c.current_inst) c
dispatch-Asks io fl e op_atomic_store c =
    store_to-Asks
      (Access.write_qword_atm c.data_mem (address48 c.current_inst)
        (c.registers (lower_top_reg c.current_inst)))
      c
dispatch-Asks io fl e op_atomic_loadb c =
    load_from-Asks (Access.read_byte_atm c.data_mem (address48 c.current_inst))
      (lower_top_reg c.current_inst) c
dispatch-Asks io fl e op_atomic_storeb c =
    store_to-Asks
      (Access.write_byte_atm c.data_mem (address48 c.current_inst)
        (c.registers (lower_top_reg c.current_inst)))
      c
dispatch-Asks io fl e op_atomic_loadw c =
    load_from-Asks (Access.read_word_atm c.data_mem (address48 c.current_inst))
      (lower_top_reg c.current_inst) c
dispatch-Asks io fl e op_atomic_storew c =
    store_to-Asks
      (Access.write_word_atm c.data_mem (address48 c.current_inst)
        (c.registers (lower_top_reg c.current_inst)))
      c
dispatch-Asks io fl e op_atomic_loadd c =
    load_from-Asks (Access.read_dword_atm e.host_word c.data_mem (address48 c.current_inst))
      (lower_top_reg c.current_inst) c
dispatch-Asks io fl e op_atomic_stored c =
    store_to-Asks
      (Access.write_dword_atm c.data_mem (address48 c.current_inst)
        (c.registers (lower_top_reg c.current_inst)))
      c
dispatch-Asks io fl e op_load_reg c =
    load_from-Asks (Access.read qword c.data_mem (c.registers (lower_down_reg c.current_inst)))
      (lower_up_reg c.current_inst) c
dispatch-Asks io fl e op_store_reg c =
    store_to-Asks
      (Access.write qword c.data_mem (c.registers (lower_down_reg c.current_inst))
        (c.registers (lower_up_reg c.current_inst)))
      c
dispatch-Asks io fl e op_loadb_reg c =
    load_from-Asks (Access.read byte c.data_mem (c.registers (lower_down_reg c.current_inst)))
      (lower_up_reg c.current_inst) c
dispatch-Asks io fl e op_storeb_reg c =
    store_to-Asks
      (Access.write byte c.data_mem (c.registers (lower_down_reg c.current_inst))
        (c.registers (lower_up_reg c.current_inst)))
      c
dispatch-Asks io fl e op_loadw_reg c =
    load_from-Asks (Access.read word c.data_mem (c.registers (lower_down_reg c.current_inst)))
      (lower_up_reg c.current_inst) c
dispatch-Asks io fl e op_storew_reg c =
    store_to-Asks
      (Access.write word c.data_mem (c.registers (lower_down_reg c.current_inst))
        (c.registers (lower_up_reg c.current_inst)))
      c
dispatch-Asks io fl e op_loadd_reg c =
    load_from-Asks (Access.read dword c.data_mem (c.registers (lower_down_reg c.current_inst)))
      (lower_up_reg c.current_inst) c
dispatch-Asks io fl e op_stored_reg c =
    store_to-Asks
      (Access.write dword c.data_mem (c.registers (lower_down_reg c.current_inst))
        (c.registers (lower_up_reg c.current_inst)))
      c
dispatch-Asks io fl e op_sin c = sin-Asks io c
dispatch-Asks io fl e op_sout c = shown-Asks c (
    get_bytes (io.malloc_ok (wrap (c.registers reg_mc + 1))) c.data_mem (address48 c.current_inst)
      (c.registers reg_mc))
dispatch-Asks io fl e op_in c = scanned-Asks c hhi (io.scan hhi c.input)
dispatch-Asks io fl e op_inw c = scanned-Asks c hd (io.scan hd c.input)
dispatch-Asks io fl e op_ind c = scanned-Asks c int (io.scan int c.input)
dispatch-Asks io fl e op_inq c = scanned-Asks c lld (io.scan lld c.input)
dispatch-Asks io fl e op_uin c = scanned-Asks c hhu (io.scan hhu c.input)
dispatch-Asks io fl e op_uinw c = scanned-Asks c hu (io.scan hu c.input)
dispatch-Asks io fl e op_uind c = scanned-Asks c int (io.scan int c.input)
dispatch-Asks io fl e op_uinq c = scanned-Asks c llu (io.scan llu c.input)
dispatch-Asks io fl e op_inf c = scanned-Asks c lf (io.scan lf c.input)
dispatch-Asks io fl e op_inf32 c = scanned-Asks c float (io.scan float c.input)
dispatch-Asks io fl e op c = silent

-- The core that a round leaves.
abbrev pub core_of : Progress → Core
core_of (running c) = c
core_of (ended c) = c

fetched-Asks :
    (io : Stdio) (fl : Floats) (e : Host) (out : Option ℕ × Memory) (c : Core)
    → Asks c (core_of (fetched io fl e out c))
unfolding fetched
fetched-Asks io fl e (none, m) c = raise-Asks m.error (record c { inst_mem = m })
fetched-Asks io fl e (some inst, m) c =
    dispatch-Asks io fl e (decode inst)
      (record c { inst_mem = m; current_inst = inst; pc = wrap (c.pc + 1) })

pub step-Asks : (io : Stdio) (fl : Floats) (e : Host) (c : Core) → Asks c (core_of (step io fl e c))
unfolding step
step-Asks io fl e c = tested c.stop_running
  where
    tested :
        (stop : Bool)
        → Asks c
            (core_of (if stop then ended c else fetched io fl e (Memory.read c.inst_mem c.pc) c))
    tested true = silent
    tested false = fetched-Asks io fl e (Memory.read c.inst_mem c.pc) c
