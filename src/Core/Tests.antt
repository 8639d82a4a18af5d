-- ===== src/Core/Tests.antt =====
-- A concrete core, whose register n holds 10 + n and whose instruction has the operand 33, and the
-- theorems of the core at it.
mod Switch
use merry_v.Common.{
  ℕ, ◌+◌, ◌-◌, ◌*◌, ◌/◌, ◌%◌, none, ◌<◌, ◌≡◌, refl, sym, ap, true, false, ◌||◌, some, [], ◌∷◌,
  arith, if◌then◌else◌, ◌==◌, ltb, update, word_max,
}
use mathlib.Core.Option.{some-injective}
use merry_v.Queue.{Queue, Request}
use merry_v.Stack.{Stack}
use merry_v.Stack.Inv as StackInv
use merry_v.Stack.Lifo.{contents}
use merry_v.DMemory.{DMemory}
use merry_v.DMemory
use merry_v.DMemory.Inv as DataInv
use merry_v.DMemory.Flat as DataFlat
use merry_v.Memory.{Memory}
use merry_v.Memory.Laws.{flat, size}
use merry_v.Core.{
  Core, Host, FlagRegister, lower_top_reg, lower_up_reg, lower_down_reg, lower_4byte_imm, address48,
  get_immediate, reg_mc, with_inst,
}
use merry_v.Core.Arith.{div_imm, mod_imm}
use merry_v.Core.Floats.{Floats, Format}
use merry_v.Core.Console.{Stdio, range}
use merry_v.Core.Moves.{excg, movesx_reg32, move_reg32}
use merry_v.Core.StackOps.{push_reg, pop, pusha, popa, op_call, op_ret, call, ret}
use merry_v.Core.LoadStore.{load, store}
use merry_v.Core.Control.{cmp_reg, jz, jnz, jc, jnc, jg, jge, loop}
use merry_v.Core.PushPop.{IsStack, depth, pop-push_reg, push_reg-IsStack, push_reg-past_end}
use merry_v.Core.SaveAll.{popa-pusha, popa-empty}
use merry_v.Core.Calls.{op_ret-op_call, ret-call}
use merry_v.Core.Transfer.{load-store, transfer-refused}
use merry_v.Core.Immediate.{get_immediate-linear}
use merry_v.Core.Decisions.{loops, cmp_reg-jumps, cmp_reg-jge, loops-count}
use merry_v.Core.Division.{div_imm-mod_imm, div_imm-stops}
use merry_v.Core.Exchange.{excg-excg, movesx_reg32-zero}

abbrev numbers : ℕ → ℕ
numbers i = i

abbrev requests : ℕ → Request
requests i = record { request_number = 151; wait_lock = some i; id = i }

abbrev queue : Queue
queue = record {
  node_count = 2;
  data_count = 0;
  head = 0;
  tail = 0;
  next = numbers;
  value = requests;
}

abbrev ras : Stack
ras = record {
  array = some numbers;
  size = 30;
  sp = 0;
  dynamic = true;
  upper_lim = 50;
  add_per_resize = 10;
}

abbrev flags : FlagRegister
flags = record { carry = false; zero = false; negative = false; overflow = false }

abbrev mem : DMemory
mem = record { pages = DMemory.zero_page ∷ []; number_of_pages = 1; error = 0 }

abbrev insts : Memory
insts = record { pages = numbers ∷ []; number_of_pages = 1; error = 0 }

abbrev pub core : Core
core = record {
  data_mem = mem;
  inst_mem = insts;
  stack_mem = numbers;
  registers = λ i. 10 + i;
  sp = 4;
  bp = 2;
  pc = 40;
  core_id = 0;
  cond = some 0;
  flag = flags;
  stop_running = false;
  greater = false;
  current_inst = 33;
  ras = ras;
  exception_address = 0;
  hdlr = record { queue = queue; handle_more = true };
  effects = [];
  crashed = false;
  input = [];
  output = [];
}

-- MOVE_IMM_64 into register 1, a qword that is skipped, and the immediate
abbrev program : ℕ → ℕ
program i = if i == 0 then 27 * 72057594037927936 + 1 else i

abbrev pub loader : Core
loader = record core {
  inst_mem = record { pages = program ∷ []; number_of_pages = 1; error = 0 };
  pc = 0;
}

abbrev pub stdio : Stdio
stdio = record {
  getchar = λ input. elim input [ [] ↦ (none, []) | b ∷ rest ↦ (some b, rest) ];
  putchar = λ b. b ∷ [];
  scan = λ conv input. elim input [ [] ↦ (none, []) | b ∷ rest ↦ (some b, rest) ];
  print = λ conv v. v % range conv ∷ [];
  print_stray = λ conv c. [];
  malloc_ok = λ n. true;
}

abbrev format : Format
format = record {
  add = λ x y. x;
  sub = λ x y. x;
  mul = λ x y. x;
  div = λ x y. x;
  equal = λ x y. x == y;
  greater = λ x y. ltb y x;
  is_zero = λ x. x == 0;
}

abbrev pub floats : Floats
floats = record { single = format; double = format; narrowed = format }

abbrev empty_core : Core
empty_core = record core { sp = word_max }

abbrev full_core : Core
full_core = record core { sp = 131071 }

abbrev pub host : Host
host = record {
  update_flags = λ c. flags;
  realloc = λ array. array;
  host_word = λ page offset. 0;
  lshift64 = λ v. v;
  rshift64 = λ v. v;
}

core-IsStack : IsStack core
unfolding depth
core-IsStack = record { word = omega arith; reached = omega arith }

pub mem-IsValid : DataInv.IsValid mem
mem-IsValid = record { counted = refl; few = omega arith; bytes = ((λ i. omega arith), tt) }

ras-IsValid : StackInv.IsValid ras
ras-IsValid = record { cells = numbers; present = refl; within = omega arith; sized = omega arith }

keep-Realloc : StackInv.Realloc (λ array. array) 30
keep-Realloc = record { keeps = λ f g i e lt. ap (λ h. h i) (sym (some-injective f g e)) }

popa-pusha_example :
    ((i : ℕ) → (popa (pusha core)).registers i ≡ core.registers i)
    × ((popa (pusha core)).sp ≡ depth core)
    × ((popa (pusha core)).stack_mem (depth core) ≡ core.registers 0)
    × ((popa (pusha core)).stop_running ≡ core.stop_running)
popa-pusha_example = popa-pusha core core-IsStack refl

popa-empty_example :
    ((popa empty_core).stop_running ≡ empty_core.stop_running)
    × ((popa empty_core).sp ≡ word_max - 15)
    × ((popa empty_core).registers 15 ≡ empty_core.stack_mem word_max)
popa-empty_example = popa-empty empty_core refl

pop-push_reg_example : pop (with_inst 3 (push_reg core)) ≡ record core {
  current_inst = 3;
  stack_mem =
      update core.stack_mem (depth core) (core.registers (lower_down_reg core.current_inst));
  registers =
      update core.registers (lower_down_reg 3) (core.registers (lower_down_reg core.current_inst));
}
pop-push_reg_example = pop-push_reg core 3 core-IsStack refl

push_reg-IsStack_example : IsStack (push_reg core)
push_reg-IsStack_example = push_reg-IsStack core core-IsStack

push_reg-past_end_example :
    ((push_reg full_core).sp ≡ 131072)
    × ((push_reg full_core).stack_mem 131072
        ≡ full_core.registers (lower_down_reg full_core.current_inst))
    × ((push_reg full_core).stop_running ≡ full_core.stop_running)
push_reg-past_end_example = push_reg-past_end full_core refl

op_ret-op_call_example :
    ((op_call host core).pc ≡ address48 core.current_inst)
    × ((op_ret (with_inst 3 (op_call host core))).pc ≡ core.pc)
    × (contents (op_ret (with_inst 3 (op_call host core))).ras ≡ contents core.ras)
    × ((op_ret (with_inst 3 (op_call host core))).stop_running ≡ core.stop_running)
op_ret-op_call_example =
    op_ret-op_call host core 3 ras-IsValid keep-Realloc (omega arith) (omega arith) refl
      (omega arith)

ret-call_example :
    ((call core).stack_mem core.sp ≡ core.bp)
    × ((call core).bp ≡ core.sp + 1)
    × ((ret (with_inst 3 (call core))).bp ≡ core.stack_mem (core.sp + 1))
ret-call_example = ret-call core 3 (omega arith)

load-store_example :
    (load 16 (with_inst 3 (store 16 core))).registers (lower_top_reg 3)
    ≡ core.registers (lower_top_reg core.current_inst)
load-store_example = load-store core 3 16 mem-IsValid (omega arith) (omega arith) refl

transfer-refused_example :
    ((load 1048570 core).stop_running ≡ true)
    × ((load 1048570 core).registers ≡ core.registers)
    × ((store 1048570 core).stop_running ≡ true)
    × ((store 1048570 core).registers ≡ core.registers)
    × ((j : ℕ) → DataFlat.flat (store 1048570 core).data_mem j ≡ DataFlat.flat core.data_mem j)
transfer-refused_example =
    transfer-refused core 1048570 mem-IsValid (omega arith) (omega arith) refl

get_immediate-linear_example :
    ((get_immediate core).0
      ≡ (if ltb (core.pc + 1) (size core.inst_mem) then flat core.inst_mem (core.pc + 1) else 0))
    × ((get_immediate core).1.pc ≡ core.pc + 1)
    × ((get_immediate core).1.stop_running
        ≡ (if ltb (core.pc + 1) (size core.inst_mem) then core.stop_running else true))
get_immediate-linear_example = get_immediate-linear core (omega arith)

cmp_reg-jumps_example :
    (let x = core.registers (lower_up_reg core.current_inst) in
      let y = core.registers (lower_down_reg core.current_inst) in
      let c' = with_inst 3 (cmp_reg core) in
      ((jz c').pc ≡ (if x == y then address48 3 else core.pc))
      × ((jnz c').pc ≡ (if x == y then core.pc else address48 3))
      × ((jc c').pc ≡ (if ltb x y then address48 3 else core.pc))
      × ((jnc c').pc ≡ (if ltb x y then core.pc else address48 3))
      × ((jg c').pc ≡ (if ltb y x || core.greater then address48 3 else core.pc)))
cmp_reg-jumps_example = cmp_reg-jumps core 3

cmp_reg-jge_example : (jge (with_inst 3 (cmp_reg core))).pc ≡ (
    if core.registers (lower_up_reg core.current_inst)
      == core.registers (lower_down_reg core.current_inst)
    then core.pc
    else address48 3)
cmp_reg-jge_example = cmp_reg-jge core 3 refl

loops-count_example :
    ((loops 1 core).registers reg_mc ≡ core.registers reg_mc - 1)
    × ((loop (loops (core.registers reg_mc) core)) ≡ loops (core.registers reg_mc) core)
loops-count_example = loops-count core 1 (omega arith)

div_imm-mod_imm_example :
    ((div_imm host core).registers (lower_top_reg core.current_inst)
          * lower_4byte_imm core.current_inst
        + (mod_imm host core).registers (lower_top_reg core.current_inst)
      ≡ core.registers (lower_top_reg core.current_inst))
    × ((mod_imm host core).registers (lower_top_reg core.current_inst)
        < lower_4byte_imm core.current_inst)
    × ((div_imm host core).stop_running ≡ core.stop_running)
    × ((mod_imm host core).stop_running ≡ core.stop_running)
div_imm-mod_imm_example = div_imm-mod_imm host core refl

div_imm-stops_example :
    let zero_divisor = lower_4byte_imm core.current_inst == 0 in
    ((div_imm host core).stop_running ≡ (zero_divisor || core.stop_running))
    × ((mod_imm host core).stop_running ≡ (zero_divisor || core.stop_running))
    × ((div_imm host core).registers ≡ (
        if zero_divisor
        then core.registers
        else (let reg = lower_top_reg core.current_inst in
            update core.registers reg (core.registers reg / lower_4byte_imm core.current_inst))))
div_imm-stops_example = div_imm-stops host core

excg-excg_example : (excg (excg core)).registers 1 ≡ core.registers 1
excg-excg_example = excg-excg core 1

movesx_reg32-zero_example : movesx_reg32 core ≡ move_reg32 core
movesx_reg32-zero_example = movesx_reg32-zero core
