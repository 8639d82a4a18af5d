-- ===== src/Core/Console.antt =====
-- The console instructions of `merry_runCore` in merry/merry_core.c, CIN to UOUTR, over what the C
-- library's stdio does with the standard streams.
pub mod Text
pub mod Numbers
use merry_v.Common.{
  ℕ, zero, suc, ◌+◌, ◌*◌, ◌/◌, ◌%◌, Bool, Option, none, some, List, [], ◌∷◌, ◌++◌, ◌==◌,
  if◌then◌else◌, wrap, word_max,
}
use merry_v.DMemory.{DMemory}
use merry_v.DMemory.Bytes.{get_bytes, write_bytes}
use merry_v.Core.{Core, regr_count, reg_mc, lower_down_reg, address48, set_reg, stop_with}
use merry_v.Core.Opcodes.{
  Opcode, op_cin, op_cout, op_in, op_ind, op_inf, op_inf32, op_inq, op_inw, op_out, op_outd,
  op_outf, op_outf32, op_outq, op_outr, op_outw, op_sin, op_sout, op_uin, op_uind, op_uinq, op_uinw,
  op_uout, op_uoutd, op_uoutq, op_uoutr, op_uoutw,
}

-- The conversions of `fscanf` and `fprintf` that the instructions name.
pub data Conversion : Type 0 where
  hhi hd int lld hhu hu unsigned llu lf float lli : Conversion

-- How many values the object has that the conversion stores.
abbrev pub range : Conversion → ℕ
range hhi = 256
range hhu = 256
range hd = 65536
range hu = 65536
range int = 4294967296
range unsigned = 4294967296
range float = 4294967296
range lld = 18446744073709551616
range llu = 18446744073709551616
range lf = 18446744073709551616
range lli = 18446744073709551616

-- What the C library does, on the bytes that wait on stdin: `getchar` (`none` for EOF) and a
-- conversion of `fscanf` (`none` if nothing is stored) with the bytes that are left, the text that
-- `putchar` and a conversion of `fprintf` write for an integer argument, and the text of "%lf" and
-- "%f" where the argument that is passed is an integer register, which C leaves undefined; and
-- whether malloc gives that many bytes.
pub record Stdio : Type 0 where
  pub getchar : List ℕ → Option ℕ × List ℕ
  pub putchar : ℕ → List ℕ
  pub scan : Conversion → List ℕ → Option ℕ × List ℕ
  pub print : Conversion → ℕ → List ℕ
  pub print_stray : Conversion → Core → List ℕ
  pub malloc_ok : ℕ → Bool

-- MERRY_INTERNAL_ERROR of merry/defs/merry_errors.h
abbrev pub internal_error : ℕ
internal_error = 62

abbrev pub write_out : List ℕ → Core → Core
write_out text c = record c { output = c.output ++ text }

-- `getchar()` as a register takes it: EOF is -1.
abbrev pub char_word : Option ℕ → ℕ
char_word out = elim out [ none ↦ word_max | some b ↦ b ]

unfoldable pub cin : Stdio → Core → Core
cin io c =
    let (out, rest) = io.getchar c.input in
    set_reg (lower_down_reg c.current_inst) (char_word out) (record c { input = rest })

unfoldable pub cout : Stdio → Core → Core
cout io c = write_out (io.putchar (c.registers (lower_down_reg c.current_inst) % 256)) c

-- The loop of OP_SIN; a byte of `temp` keeps 8 bits of what getchar returns.
unfoldable pub read_chars : Stdio → ℕ → List ℕ → List ℕ × List ℕ
read_chars io zero input = ([], input)
read_chars io (suc len) input =
    let (out, rest) = io.getchar input in
    let (temp, left) = read_chars io len rest in (char_word out % 256 ∷ temp, left)

-- What becomes of a core once the copy into its data memory has returned.
abbrev pub stored : Bool × DMemory → Core → Core
stored (done, m) c =
    let c' = record c { data_mem = m } in if done then c' else stop_with internal_error c'

unfoldable pub sin : Stdio → Core → Core
unfolding read_chars
sin io c =
    let len = c.registers reg_mc in
    if io.malloc_ok len
    then (let (temp, rest) = read_chars io len c.input in
        stored (write_bytes c.data_mem (address48 c.current_inst) (some temp))
          (record c { input = rest }))
    else stop_with internal_error c

-- What "%s" prints of a string that holds these bytes and is closed by a NUL.
abbrev pub until_nul : List ℕ → List ℕ
until_nul [] = []
until_nul (b ∷ bytes) = let rest = until_nul bytes in if b == 0 then [] else b ∷ rest

abbrev pub shown : Option (List ℕ) × DMemory → Core → Core
shown (out, m) c =
    let c' = record c { data_mem = m } in
    elim out [ none ↦ stop_with m.error c' | some str ↦ write_out (until_nul str) c' ]

unfoldable pub sout : Stdio → Core → Core
sout io c =
    let len = c.registers reg_mc in
    shown (get_bytes (io.malloc_ok (wrap (len + 1))) c.data_mem (address48 c.current_inst) len) c

-- A store into the low bytes of a register.
abbrev pub store_low : ℕ → ℕ → ℕ → ℕ
store_low k old v = old / k * k + v % k

-- What becomes of a core once `fscanf` has returned.
abbrev pub scanned : Conversion → Option ℕ × List ℕ → Core → Core
scanned conv (out, rest) c =
    let c' = record c { input = rest } in
    let reg = lower_down_reg c.current_inst in
    elim out [ none ↦ c' | some v ↦ set_reg reg (store_low (range conv) (c.registers reg) v) c' ]

-- `fscanf(stdin, ..., &c->registers[*current & 15])`
unfoldable pub in_reg : Stdio → Conversion → Core → Core
in_reg io conv c = scanned conv (io.scan conv c.input) c

-- `fprintf(stdout, ..., c->registers[*current & 15])`
unfoldable pub out_reg : Stdio → Conversion → Core → Core
out_reg io conv c = write_out (io.print conv (c.registers (lower_down_reg c.current_inst))) c

-- The lines of OP_OUTR and OP_UOUTR for `count` registers from `i` on.
unfoldable pub print_regs : Stdio → Conversion → (ℕ → ℕ) → ℕ → ℕ → List ℕ
print_regs io conv registers i zero = []
print_regs io conv registers i (suc count) =
    io.print conv (registers i) ++ 10 ∷ print_regs io conv registers (i + 1) count

-- The cases of the console; an opcode without a case does nothing.
unfoldable pub console_case : Stdio → Opcode → Core → Core
unfolding cin cout sin sout in_reg out_reg print_regs
console_case io op_cin c = cin io c
console_case io op_cout c = cout io c
console_case io op_sin c = sin io c
console_case io op_sout c = sout io c
console_case io op_in c = in_reg io hhi c
console_case io op_out c = out_reg io hhi c
console_case io op_inw c = in_reg io hd c
console_case io op_outw c = out_reg io hd c
console_case io op_ind c = in_reg io int c
console_case io op_outd c = out_reg io int c
console_case io op_inq c = in_reg io lld c
console_case io op_outq c = out_reg io lld c
console_case io op_uin c = in_reg io hhu c
console_case io op_uout c = out_reg io hhu c
console_case io op_uinw c = in_reg io hu c
console_case io op_uoutw c = out_reg io hu c
console_case io op_uind c = in_reg io int c
console_case io op_uoutd c = out_reg io unsigned c
console_case io op_uinq c = in_reg io llu c
console_case io op_uoutq c = out_reg io llu c
console_case io op_inf c = in_reg io lf c
console_case io op_outf c = write_out (io.print_stray lf c) c
console_case io op_inf32 c = in_reg io float c
console_case io op_outf32 c = write_out (io.print_stray float c) c
console_case io op_outr c = write_out (print_regs io lli c.registers 0 regr_count) c
console_case io op_uoutr c = write_out (print_regs io llu c.registers 0 regr_count) c
console_case io op c = c
