-- ===== src/Core/Opcodes.antt =====
-- The opcodes of merry/core/merry_opcodes.h, in the order of their numbers.
use merry_v.Common.{ℕ, ◌/◌, List, [], ◌∷◌, get_or}

pub data Opcode : Type 0 where
  op_nop op_halt op_add_imm op_add_reg op_sub_imm op_sub_reg op_mul_imm op_mul_reg op_div_imm :
      Opcode
  op_div_reg op_mod_imm op_mod_reg op_iadd_imm op_iadd_reg op_isub_imm op_isub_reg op_imul_imm :
      Opcode
  op_imul_reg op_idiv_imm op_idiv_reg op_imod_imm op_imod_reg op_fadd op_fsub op_fmul op_fdiv :
      Opcode
  op_move_imm op_move_imm_64 op_move_reg op_move_reg8 op_move_reg16 op_move_reg32 op_movesx_imm8 :
      Opcode
  op_movesx_imm16 op_movesx_imm32 op_movesx_reg8 op_movesx_reg16 op_movesx_reg32 op_jmp_off : Opcode
  op_jmp_addr op_call op_ret op_sva op_svc op_push_imm op_push_reg op_pop op_pusha op_popa : Opcode
  op_and_imm op_and_reg op_or_imm op_or_reg op_xor_imm op_xor_reg op_not op_lshift op_rshift :
      Opcode
  op_cmp_imm op_cmp_reg op_inc op_dec op_lea op_load op_store op_excg8 op_excg16 op_excg32 : Opcode
  op_excg op_mov8 op_mov16 op_mov32 op_cflags op_reset op_clz op_cln op_clc op_clo op_jnz op_jz :
      Opcode
  op_jne op_je op_jnc op_jc op_jno op_jo op_jnn op_jn op_jng op_jg op_jns op_js op_jge op_jse :
      Opcode
  op_loop op_intr op_loadb op_loadw op_loadd op_storeb op_storew op_stored op_load_reg : Opcode
  op_store_reg op_loadb_reg op_storeb_reg op_loadw_reg op_storew_reg op_loadd_reg op_stored_reg :
      Opcode
  op_cmpxchg op_cin op_cout op_sin op_sout op_in op_out op_inw op_outw op_ind op_outd op_inq :
      Opcode
  op_outq op_uin op_uout op_uinw op_uoutw op_uind op_uoutd op_uinq op_uoutq op_inf op_outf : Opcode
  op_inf32 op_outf32 op_outr op_uoutr op_fadd32 op_fsub32 op_fmul32 op_fdiv32 op_atomic_load :
      Opcode
  op_atomic_loadb op_atomic_loadw op_atomic_loadd op_atomic_store op_atomic_storeb : Opcode
  op_atomic_storew op_atomic_stored op_add_memb op_add_memw op_add_memd op_add_memq op_sub_memb :
      Opcode
  op_sub_memw op_sub_memd op_sub_memq op_mul_memb op_mul_memw op_mul_memd op_mul_memq : Opcode
  op_div_memb op_div_memw op_div_memd op_div_memq op_mod_memb op_mod_memw op_mod_memd : Opcode
  op_mod_memq op_fadd_mem op_fsub_mem op_fmul_mem op_fdiv_mem op_fadd32_mem op_fsub32_mem : Opcode
  op_fmul32_mem op_fdiv32_mem op_cmp_imm_memb op_cmp_imm_memw op_cmp_imm_memd op_cmp_imm_memq :
      Opcode
  op_set_excp op_call_excp op_sva_mem op_svc_mem : Opcode

-- The place in the list is the number.
abbrev pub opcodes : List Opcode
opcodes =
    op_nop ∷ op_halt ∷ op_add_imm ∷ op_add_reg ∷ op_sub_imm ∷ op_sub_reg ∷ op_mul_imm ∷ op_mul_reg
    ∷ op_div_imm ∷ op_div_reg ∷ op_mod_imm ∷ op_mod_reg ∷ op_iadd_imm ∷ op_iadd_reg ∷ op_isub_imm
    ∷ op_isub_reg ∷ op_imul_imm ∷ op_imul_reg ∷ op_idiv_imm ∷ op_idiv_reg ∷ op_imod_imm
    ∷ op_imod_reg ∷ op_fadd ∷ op_fsub ∷ op_fmul ∷ op_fdiv ∷ op_move_imm ∷ op_move_imm_64
    ∷ op_move_reg ∷ op_move_reg8 ∷ op_move_reg16 ∷ op_move_reg32 ∷ op_movesx_imm8 ∷ op_movesx_imm16
    ∷ op_movesx_imm32 ∷ op_movesx_reg8 ∷ op_movesx_reg16 ∷ op_movesx_reg32 ∷ op_jmp_off
    ∷ op_jmp_addr ∷ op_call ∷ op_ret ∷ op_sva ∷ op_svc ∷ op_push_imm ∷ op_push_reg ∷ op_pop
    ∷ op_pusha ∷ op_popa ∷ op_and_imm ∷ op_and_reg ∷ op_or_imm ∷ op_or_reg ∷ op_xor_imm ∷ op_xor_reg
    ∷ op_not ∷ op_lshift ∷ op_rshift ∷ op_cmp_imm ∷ op_cmp_reg ∷ op_inc ∷ op_dec ∷ op_lea ∷ op_load
    ∷ op_store ∷ op_excg8 ∷ op_excg16 ∷ op_excg32 ∷ op_excg ∷ op_mov8 ∷ op_mov16 ∷ op_mov32
    ∷ op_cflags ∷ op_reset ∷ op_clz ∷ op_cln ∷ op_clc ∷ op_clo ∷ op_jnz ∷ op_jz ∷ op_jne ∷ op_je
    ∷ op_jnc ∷ op_jc ∷ op_jno ∷ op_jo ∷ op_jnn ∷ op_jn ∷ op_jng ∷ op_jg ∷ op_jns ∷ op_js ∷ op_jge
    ∷ op_jse ∷ op_loop ∷ op_intr ∷ op_loadb ∷ op_loadw ∷ op_loadd ∷ op_storeb ∷ op_storew
    ∷ op_stored ∷ op_load_reg ∷ op_store_reg ∷ op_loadb_reg ∷ op_storeb_reg ∷ op_loadw_reg
    ∷ op_storew_reg ∷ op_loadd_reg ∷ op_stored_reg ∷ op_cmpxchg ∷ op_cin ∷ op_cout ∷ op_sin
    ∷ op_sout ∷ op_in ∷ op_out ∷ op_inw ∷ op_outw ∷ op_ind ∷ op_outd ∷ op_inq ∷ op_outq ∷ op_uin
    ∷ op_uout ∷ op_uinw ∷ op_uoutw ∷ op_uind ∷ op_uoutd ∷ op_uinq ∷ op_uoutq ∷ op_inf ∷ op_outf
    ∷ op_inf32 ∷ op_outf32 ∷ op_outr ∷ op_uoutr ∷ op_fadd32 ∷ op_fsub32 ∷ op_fmul32 ∷ op_fdiv32
    ∷ op_atomic_load ∷ op_atomic_loadb ∷ op_atomic_loadw ∷ op_atomic_loadd ∷ op_atomic_store
    ∷ op_atomic_storeb ∷ op_atomic_storew ∷ op_atomic_stored ∷ op_add_memb ∷ op_add_memw
    ∷ op_add_memd ∷ op_add_memq ∷ op_sub_memb ∷ op_sub_memw ∷ op_sub_memd ∷ op_sub_memq
    ∷ op_mul_memb ∷ op_mul_memw ∷ op_mul_memd ∷ op_mul_memq ∷ op_div_memb ∷ op_div_memw
    ∷ op_div_memd ∷ op_div_memq ∷ op_mod_memb ∷ op_mod_memw ∷ op_mod_memd ∷ op_mod_memq
    ∷ op_fadd_mem ∷ op_fsub_mem ∷ op_fmul_mem ∷ op_fdiv_mem ∷ op_fadd32_mem ∷ op_fsub32_mem
    ∷ op_fmul32_mem ∷ op_fdiv32_mem ∷ op_cmp_imm_memb ∷ op_cmp_imm_memw ∷ op_cmp_imm_memd
    ∷ op_cmp_imm_memq ∷ op_set_excp ∷ op_call_excp ∷ op_sva_mem ∷ op_svc_mem ∷ []

-- `merry_get_opcode`: bits 56 to 63. A number behind the last opcode has no case in the switch, so
-- that it does what OP_NOP does.
unfoldable pub decode : ℕ → Opcode
decode inst = get_or opcodes (inst / 72057594037927936) op_nop
