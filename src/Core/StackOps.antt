-- ===== src/Core/StackOps.antt =====
-- The stack instructions of merry/merry_core.c: pushes, pops, calls and the variables of a frame. The
-- stack's cells are a function of the index, so an index past the 131072 cells of its page is a cell
-- of whatever memory follows the page.
use merry_v.Common.{
  ℕ, zero, suc, ◌+◌, ◌-◌, ◌%◌, Bool, true, not, ◌||◌, Option, none, some, if◌then◌else◌, ◌==◌, ltb,
  leb, update, wrap, word_mod, word_max,
}
use merry_v.Core.{
  Core, Host, lower_top_reg, lower_down_reg, address48, set_reg, stop_with, regr_count,
  stack_overflow, stack_underflow, call_depth_reached, invalid_return, invalid_variable_access,
}
use merry_v.Memory.{qs_per_page}
use merry_v.Stack.{Stack, Status, success, failure, crashed}
use merry_v.Stack
use merry_v.DMemory.Access.{read_word}
use merry_v.Core.ArithMem.{with_read}

abbrev pub is_stack_full : Core → Bool
is_stack_full c = c.sp == qs_per_page

abbrev pub check_stack_lim : Core → ℕ → Bool
check_stack_lim c size = c.sp == word_max || ltb size (wrap (qs_per_page + word_mod - c.sp))

abbrev pub is_stack_empty : Core → Bool
is_stack_empty c = c.sp == word_max

abbrev pub stack_has_atleast : Core → ℕ → Bool
stack_has_atleast c atleast = leb (atleast - 1) c.sp

-- `core->sp++; core->stack_mem[core->sp] = value;`
unfoldable pub put : ℕ → Core → Core
put value c =
    let sp = wrap (c.sp + 1) in record c { sp = sp; stack_mem = update c.stack_mem sp value }

-- `core->registers[reg] = core->stack_mem[core->sp]; core->sp--;`
unfoldable pub take : ℕ → Core → Core
take reg c = record c {
  sp = wrap (c.sp + word_max);
  registers = update c.registers reg (c.stack_mem c.sp);
}

-- The base pointer goes to the cell at the old stack pointer.
unfoldable pub call : Core → Core
unfolding stop_with
call c =
    if is_stack_full c || not (check_stack_lim c 4) then stop_with stack_overflow c else record c {
      stack_mem = update c.stack_mem c.sp c.bp;
      sp = wrap (c.sp + 1);
      bp = wrap (c.sp + 1);
    }

unfoldable pub ret : Core → Core
unfolding stop_with
ret c =
    if is_stack_empty c || not (stack_has_atleast c 1)
    then stop_with stack_underflow c
    else record c { bp = c.stack_mem c.bp }

-- What SVA and SVA_MEM do once they have the offset.
unfoldable pub sva_at : ℕ → Core → Core
unfolding stop_with
sva_at off c =
    if ltb c.bp off
    then stop_with invalid_variable_access c
    else set_reg (lower_top_reg c.current_inst) (c.stack_mem (c.bp - off)) c

-- What SVC and SVC_MEM do once they have the offset.
unfoldable pub svc_at : ℕ → Core → Core
unfolding stop_with
svc_at off c = if ltb c.bp off then stop_with invalid_variable_access c else record c {
  stack_mem = update c.stack_mem (c.bp - off) (c.registers (lower_top_reg c.current_inst));
}

unfoldable pub sva : Core → Core
unfolding sva_at
sva c = sva_at (c.current_inst % 65536) c

unfoldable pub svc : Core → Core
unfolding svc_at
svc c = svc_at (c.current_inst % 65536) c

unfoldable pub sva_mem : Core → Core
unfolding with_read sva_at
sva_mem c = with_read (read_word c.data_mem (address48 c.current_inst)) c sva_at

unfoldable pub svc_mem : Core → Core
unfolding with_read svc_at
svc_mem c = with_read (read_word c.data_mem (address48 c.current_inst)) c svc_at

unfoldable pub push_imm : Core → Core
unfolding stop_with put
push_imm c =
    if is_stack_full c then stop_with stack_overflow c else put (address48 c.current_inst) c

unfoldable pub push_reg : Core → Core
unfolding stop_with put
push_reg c =
    if is_stack_full c
    then stop_with stack_overflow c
    else put (c.registers (lower_down_reg c.current_inst)) c

unfoldable pub pop : Core → Core
unfolding stop_with take
pop c =
    if is_stack_empty c then stop_with stack_underflow c else take (lower_down_reg c.current_inst) c

-- The loop of PUSHA from register `i` on, for `n` registers.
unfoldable pub pusha_loop : ℕ → ℕ → Core → Core
unfolding put
pusha_loop zero i c = c
pusha_loop (suc n) i c = pusha_loop n (i + 1) (put (c.registers i) c)

-- The loop of POPA from register `i` down; register 0 ends it.
unfoldable pub popa_loop : ℕ → Core → Core
unfolding take
popa_loop zero c = c
popa_loop (suc i) c = popa_loop i (take (suc i) c)

unfoldable pub pusha : Core → Core
unfolding stop_with pusha_loop
pusha c =
    if check_stack_lim c regr_count then pusha_loop regr_count 0 c else stop_with stack_overflow c

unfoldable pub popa : Core → Core
unfolding stop_with popa_loop
popa c = if stack_has_atleast c regr_count then popa_loop 15 c else stop_with stack_underflow c

-- The case OP_CALL given the outcome of the push on the RAS and the address to call.
unfoldable pub called : Status × Stack → ℕ → Core → Core
unfolding call stop_with
called (status, ras) target c =
    let c' = record c { ras = ras } in
    elim status [
      | success ↦ call (record c' { pc = target })
      | failure ↦ stop_with call_depth_reached c'
      | crashed ↦ record c' { crashed = true }
    ]

unfoldable pub op_call : Host → Core → Core
unfolding called
op_call e c = called (Stack.push e.realloc c.ras c.pc) (address48 c.current_inst) c

-- The jump goes to the word before the address that SET_EXCP stored.
unfoldable pub call_excp : Host → Core → Core
unfolding called
call_excp e c = called (Stack.push e.realloc c.ras c.pc) (wrap (c.exception_address + word_max)) c

-- The case OP_RET given the outcome of the pop from the RAS, which goes to the program counter.
unfoldable pub returned : Status × Option ℕ × Stack → Core → Core
unfolding ret stop_with
returned (status, out, ras) c =
    let c' = record c { ras = ras; pc = elim out [ none ↦ c.pc | some pc ↦ pc ] } in
    elim status [
      | success ↦ ret c'
      | failure ↦ stop_with invalid_return c'
      | crashed ↦ record c' { crashed = true }
    ]

unfoldable pub op_ret : Core → Core
unfolding returned
op_ret c = returned (Stack.pop c.ras) c
