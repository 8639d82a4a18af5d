-- ===== src/Core.antt =====
-- A core of the machine, merry/merry_core.c and merry/core/merry_core.h: its state and the helpers
-- that its instructions share. The children model the instructions by kind.
pub mod Arith
pub mod ArithMem
pub mod Floats
pub mod Opcodes
pub mod Console
pub mod Switch
pub mod Run
pub mod Asks
pub mod Lifecycle
pub mod Moves
pub mod Bits
pub mod StackOps
pub mod LoadStore
pub mod Control
pub mod PushPop
pub mod Calls
pub mod SaveAll
pub mod Division
pub mod Transfer
pub mod Decisions
pub mod Immediate
pub mod Exchange
pub mod Cycle
pub mod FloatDivision
mod Tests
use merry_v.Common.{
  ℕ, zero, suc, ◌+◌, ◌-◌, ◌*◌, ◌/◌, ◌%◌, Bool, true, false, not, ◌&&◌, Option, none, some, List, [],
  ◌∷◌, ◌++◌, if◌then◌else◌, ltb, leb, ◌==◌, update, wrap, word_mod, word_max,
}
use merry_v.DMemory.{DMemory}
use merry_v.Memory.{Memory}
use merry_v.Memory
use merry_v.Stack.{Stack, Cells}
use merry_v.RequestHdlr.{RequestHdlr, Effect}
use merry_v.RequestHdlr

-- The bits of `MerryFlagRegister` that an instruction reads.
pub record FlagRegister : Type 0 where
  pub carry : Bool
  pub zero : Bool
  pub negative : Bool
  pub overflow : Bool

-- `MerryCore`, with the request handler that it reaches, the effects that its requests have on the
-- threads, whether it has made an access that kills the process, the bytes that wait on stdin and those
-- written to stdout. Registers are numbered from Ma.
pub record Core : Type 0 where
  pub data_mem : DMemory
  pub inst_mem : Memory
  pub stack_mem : ℕ → ℕ
  pub registers : ℕ → ℕ
  pub sp : ℕ
  pub bp : ℕ
  pub pc : ℕ
  pub core_id : ℕ
  pub cond : Option ℕ
  pub flag : FlagRegister
  pub stop_running : Bool
  pub greater : Bool
  pub current_inst : ℕ
  pub ras : Stack
  pub exception_address : ℕ
  pub hdlr : RequestHdlr
  pub effects : List Effect
  pub crashed : Bool
  pub input : List ℕ
  pub output : List ℕ

-- What the instructions take from the host. `update_flags` is what `_update_flags_` finds in the
-- flags of the processor behind compiled code; `realloc` is the C library's; `host_word` is memory
-- of the process behind a page's descriptor; `lshift64` and `rshift64` are what the compiled code
-- makes of a shift by 64, which C leaves undefined.
pub record Host : Type 0 where
  pub update_flags : Core → FlagRegister
  pub realloc : Option Cells → Option Cells
  pub host_word : ℕ → ℕ → ℕ
  pub lshift64 : ℕ → ℕ
  pub rshift64 : ℕ → ℕ

-- REGR_COUNT, Ma and Mc
abbrev pub regr_count : ℕ
regr_count = 16

abbrev pub reg_ma : ℕ
reg_ma = 0

abbrev pub reg_mc : ℕ
reg_mc = 2

-- The errors of merry/defs/merry_errors.h that a core raises.
abbrev pub div_by_zero : ℕ
div_by_zero = 53

abbrev pub stack_overflow : ℕ
stack_overflow = 54

abbrev pub stack_underflow : ℕ
stack_underflow = 55

abbrev pub call_depth_reached : ℕ
call_depth_reached = 56

abbrev pub invalid_return : ℕ
invalid_return = 57

abbrev pub invalid_variable_access : ℕ
invalid_variable_access = 58

-- The operand fields of an instruction: a register in bits 48 to 51, 52 to 55, 4 to 7 or 0 to 3, an
-- immediate of 32 bits, an address of 48.
abbrev pub lower_top_reg : ℕ → ℕ
lower_top_reg current = current / 281474976710656 % 16

abbrev pub upper_top_reg : ℕ → ℕ
upper_top_reg current = current / 4503599627370496 % 16

abbrev pub lower_up_reg : ℕ → ℕ
lower_up_reg current = current / 16 % 16

abbrev pub lower_down_reg : ℕ → ℕ
lower_down_reg current = current % 16

abbrev pub lower_4byte_imm : ℕ → ℕ
lower_4byte_imm current = current % 4294967296

abbrev pub address48 : ℕ → ℕ
address48 current = current % 281474976710656

abbrev pub set_reg : ℕ → ℕ → Core → Core
set_reg i v c = record c { registers = update c.registers i v }

-- `_update_flags_(&core->flag)`
abbrev pub update_flags : Host → Core → Core
update_flags e c = record c { flag = e.update_flags c }

-- `merry_requestHdlr_panic(error)` by a core.
unfoldable pub raise : ℕ → Core → Core
raise error c =
    let (effects, h) = RequestHdlr.panic c.hdlr error in
    record c { hdlr = h; effects = c.effects ++ effects }

-- A panic, and then `core->stop_running = mtrue`.
unfoldable pub stop_with : ℕ → Core → Core
unfolding raise
stop_with error c = record (raise error c) { stop_running = true }

-- `_cmp_inst_` of merry/abs/arithmetic.S: the flags of `cmp val1, val2` on x86-64.
abbrev pub sign_bit : ℕ → Bool
sign_bit x = leb 9223372036854775808 x

unfoldable pub cmp_inst : ℕ → ℕ → FlagRegister
cmp_inst val1 val2 =
    let diff = wrap (val1 + word_mod - val2) in
    record {
      carry = ltb val1 val2;
      zero = val1 == val2;
      negative = sign_bit diff;
      overflow =
          if sign_bit val1
          then not (sign_bit val2) && not (sign_bit diff)
          else sign_bit val2 && sign_bit diff;
    }

unfoldable pub zero_out_reg : Core → Core
zero_out_reg c = record c { registers = λ i. if ltb i regr_count then 0 else c.registers i }

-- What `merry_core_get_immediate` makes of the outcome of its read: the value is 0 if the
-- instruction memory has no such address.
unfoldable pub immediate_from : Option ℕ × Memory → Core → ℕ × Core
unfolding raise
immediate_from (res, m) c = elim res [
  | none ↦ (0, raise m.error (record c { inst_mem = m; stop_running = true }))
  | some v ↦ (v, record c { inst_mem = m })
]

-- `merry_core_get_immediate`
unfoldable pub get_immediate : Core → ℕ × Core
unfolding immediate_from
get_immediate c =
    let c' = record c { pc = wrap (c.pc + 1) } in immediate_from (Memory.read c'.inst_mem c'.pc) c'

-- `merry_core_init`. `left` is what malloc left in the structure, of which the flags, `greater`,
-- `current_inst` and `exception_address` stay; the other arguments before the memories are whether
-- malloc succeeds, the condition variable, whether the mutex and the registers are there, the cells
-- of the mapped stack, and the return address stack.
unfoldable pub init :
    Option Core
    → Option ℕ
    → Bool
    → Bool
    → Option Cells
    → Option Stack
    → Memory
    → DMemory
    → ℕ
    → Option Core
unfolding zero_out_reg
init (some left) (some cond) true true (some cells) (some ras) inst_mem data_mem id =
    some (record (zero_out_reg left) {
      bp = 0;
      pc = 0;
      sp = word_max;
      core_id = id;
      data_mem = data_mem;
      inst_mem = inst_mem;
      cond = some cond;
      stack_mem = cells;
      stop_running = false;
      ras = ras;
    })
init _ _ _ _ _ _ inst_mem data_mem id = none

-- The core with the next instruction loaded.
abbrev pub with_inst : ℕ → Core → Core
with_inst inst c = record c { current_inst = inst }
