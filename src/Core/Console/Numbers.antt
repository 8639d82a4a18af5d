-- ===== src/Core/Console/Numbers.antt =====
-- The console instructions of merry/merry_core.c on numbers, and the parts of a core that all of them
-- share.
use merry_v.Common.{
  ℕ, ◌/◌, ◌%◌, ◌≡◌, ◌≢◌, refl, sym, ap, ◌∙◌, true, false, Option, none, some, List, [], ◌++◌, arith,
  update_self, update_ne, Bool, Bool-cases, inl, inr,
}
use merry_v.DMemory.{DMemory}
use merry_v.Memory.{Memory}
use merry_v.Stack.{Stack}
use merry_v.Core.{Core, FlagRegister, lower_down_reg, with_inst, stop_with, reg_mc, regr_count}
use mathlib.Core.List.{append-nil}
use merry_v.Core.Opcodes.{
  Opcode, op_cin, op_cout, op_sin, op_sout, op_in, op_out, op_inw, op_outw, op_ind, op_outd, op_inq,
  op_outq, op_uin, op_uout, op_uinw, op_uoutw, op_uind, op_uoutd, op_uinq, op_uoutq, op_inf,
  op_outf, op_inf32, op_outf32, op_outr, op_uoutr,
}
use merry_v.Core.Console.{
  Stdio, Conversion, hhi, hhu, hd, hu, int, unsigned, float, lld, llu, lf, lli, range, in_reg,
  scanned, out_reg, store_low, sin, stored, shown, print_regs, console_case, read_chars, until_nul,
}

-- The number put into the low bytes is what they hold, and the bytes above are as they were.
store_low-parts :
    (conv : Conversion) (old v : ℕ)
    → (store_low (range conv) old v % range conv ≡ v % range conv)
      × (store_low (range conv) old v / range conv ≡ old / range conv)
store_low-parts hhi old v = (omega arith, omega arith)
store_low-parts hhu old v = (omega arith, omega arith)
store_low-parts hd old v = (omega arith, omega arith)
store_low-parts hu old v = (omega arith, omega arith)
store_low-parts int old v = (omega arith, omega arith)
store_low-parts unsigned old v = (omega arith, omega arith)
store_low-parts float old v = (omega arith, omega arith)
store_low-parts lld old v = (omega arith, omega arith)
store_low-parts llu old v = (omega arith, omega arith)
store_low-parts lf old v = (omega arith, omega arith)
store_low-parts lli old v = (omega arith, omega arith)

module _ (io : Stdio) where
  -- A number that an instruction reads from stdin is what an instruction of the same width then
  -- prints of the register, where the library prints of an integer only the bytes the
  -- conversion names; the bytes of the register above it, and the other registers, are as they
  -- were.
  pub out_reg-in_reg :
      (i o : Conversion) (c : Core) (inst v : ℕ) (rest : List ℕ)
      → let reg = lower_down_reg c.current_inst in
        let c' = in_reg io i c in
        range i ≡ range o
        → ((x : ℕ) → io.print o (x % range o) ≡ io.print o x)
        → io.scan i c.input ≡ (some v, rest)
        → lower_down_reg inst ≡ reg
        → ((out_reg io o (with_inst inst c')).output ≡ c.output ++ io.print o v)
          × (c'.input ≡ rest)
          × (c'.registers reg / range i ≡ c.registers reg / range i)
          × ((r : ℕ) → reg ≢ r → c'.registers r ≡ c.registers r)
  unfolding in_reg out_reg
  out_reg-in_reg i o c inst v rest width low read same =
      let reg = lower_down_reg c.current_inst in
      let word = store_low (range i) (c.registers reg) v in
      let (held, above) = store_low-parts i (c.registers reg) v in
      let printed : io.print o word ≡ io.print o v =
        sym (low word)
        ∙ ap (io.print o) (ap (λ k. word % k) (sym width) ∙ held ∙ ap (λ k. v % k) width)
        ∙ low v in
      let kept = ap (λ out. scanned i out c) read in
      rw (kept, same)
        (
          ap (λ x. c.output ++ io.print o x) (update_self c.registers reg word)
              ∙ ap (◌++◌ c.output) printed,
          refl,
          ap (λ x. x / range i) (update_self c.registers reg word) ∙ above,
          λ r ne. update_ne c.registers reg word r ne,
        )

-- What no console instruction touches.
pub record Fixed : Type 0 where
  pub pc : ℕ
  pub sp : ℕ
  pub bp : ℕ
  pub stack_mem : ℕ → ℕ
  pub inst_mem : Memory
  pub ras : Stack
  pub flag : FlagRegister
  pub greater : Bool

abbrev pub fixed : Core → Fixed
fixed c = record {
  pc = c.pc;
  sp = c.sp;
  bp = c.bp;
  stack_mem = c.stack_mem;
  inst_mem = c.inst_mem;
  ras = c.ras;
  flag = c.flag;
  greater = c.greater;
}

-- The same of it, and a longer output.
abbrev pub Extends : Core → Core → Type 0
Extends c c' = (fixed c' ≡ fixed c) × (text : List ℕ) × (c'.output ≡ c.output ++ text)

silent : (c : Core) → Extends c c
silent c = (refl, [], sym (append-nil c.output))

scanned-Extends :
    (conv : Conversion) (out : Option ℕ × List ℕ) (c : Core) → Extends c (scanned conv out c)
scanned-Extends conv (none, rest) c = silent c
scanned-Extends conv (some v, rest) c = silent c

shown-Extends : (out : Option (List ℕ) × DMemory) (c : Core) → Extends c (shown out c)
unfolding stop_with
shown-Extends (none, m) c = silent c
shown-Extends (some str, m) c = (refl, until_nul str, refl)

stored-Extends : (out : Bool × DMemory) (c : Core) → Extends c (stored out c)
unfolding stop_with
stored-Extends (true, m) c = silent c
stored-Extends (false, m) c = silent c

sin-Extends : (io : Stdio) (c : Core) → Extends c (sin io c)
unfolding sin stop_with
sin-Extends io c = elim (Bool-cases (io.malloc_ok (c.registers reg_mc))) [
  | inl room ↦
      rw room
        (stored-Extends _ (record c { input = (read_chars io (c.registers reg_mc) c.input).1 }))
  | inr full ↦ rw full (silent c)
]

-- A console instruction, whatever the library and the host do, leaves the program counter, the
-- stack, the instruction memory, the return addresses and the flags alone, and what was written
-- stays.
pub console_case-Extends : (io : Stdio) (op : Opcode) (c : Core) → Extends c (console_case io op c)
unfolding console_case
console_case-Extends io op_cin c = silent c
console_case-Extends io op_cout c = (refl, io.putchar _, refl)
console_case-Extends io op_sin c = sin-Extends io c
console_case-Extends io op_sout c = shown-Extends _ c
console_case-Extends io op_in c = scanned-Extends hhi _ c
console_case-Extends io op_inw c = scanned-Extends hd _ c
console_case-Extends io op_ind c = scanned-Extends int _ c
console_case-Extends io op_inq c = scanned-Extends lld _ c
console_case-Extends io op_uin c = scanned-Extends hhu _ c
console_case-Extends io op_uinw c = scanned-Extends hu _ c
console_case-Extends io op_uind c = scanned-Extends int _ c
console_case-Extends io op_uinq c = scanned-Extends llu _ c
console_case-Extends io op_inf c = scanned-Extends lf _ c
console_case-Extends io op_inf32 c = scanned-Extends float _ c
console_case-Extends io op_out c = (refl, io.print hhi _, refl)
console_case-Extends io op_outw c = (refl, io.print hd _, refl)
console_case-Extends io op_outd c = (refl, io.print int _, refl)
console_case-Extends io op_outq c = (refl, io.print lld _, refl)
console_case-Extends io op_uout c = (refl, io.print hhu _, refl)
console_case-Extends io op_uoutw c = (refl, io.print hu _, refl)
console_case-Extends io op_uoutd c = (refl, io.print unsigned _, refl)
console_case-Extends io op_uoutq c = (refl, io.print llu _, refl)
console_case-Extends io op_outf c = (refl, io.print_stray lf c, refl)
console_case-Extends io op_outf32 c = (refl, io.print_stray float c, refl)
console_case-Extends io op_outr c = (refl, print_regs io lli c.registers 0 regr_count, refl)
console_case-Extends io op_uoutr c = (refl, print_regs io llu c.registers 0 regr_count, refl)
console_case-Extends io op c = silent c
