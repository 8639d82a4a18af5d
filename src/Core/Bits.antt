-- ===== src/Core/Bits.antt =====
-- The bitwise instructions of merry/merry_core.c.
use merry_v.Common.{ℕ, ◌-◌, ◌/◌, ◌%◌, if◌then◌else◌, ◌==◌, word_max, bit_or, bit_and, bit_xor}
use merry_v.Core.{Core, Host, lower_up_reg, lower_down_reg, set_reg, get_immediate}

-- The bodies that the operations share, on an immediate and on a register.
abbrev pub bit_imm : (ℕ → ℕ → ℕ) → Core → Core
bit_imm op c =
    let i = lower_down_reg c.current_inst in
    let (v, c') = get_immediate c in set_reg i (op (c.registers i) v) c'

abbrev pub bit_reg : (ℕ → ℕ → ℕ) → Core → Core
bit_reg op c =
    let i = lower_up_reg c.current_inst in
    set_reg i (op (c.registers i) (c.registers (lower_down_reg c.current_inst))) c

unfoldable pub and_imm : Core → Core
unfolding get_immediate
and_imm = bit_imm bit_and

unfoldable pub and_reg : Core → Core
and_reg = bit_reg bit_and

unfoldable pub or_imm : Core → Core
unfolding get_immediate
or_imm = bit_imm bit_or

unfoldable pub or_reg : Core → Core
or_reg = bit_reg bit_or

unfoldable pub xor_imm : Core → Core
unfolding get_immediate
xor_imm = bit_imm bit_xor

unfoldable pub xor_reg : Core → Core
xor_reg = bit_reg bit_xor

-- `~` of a 64-bit word.
unfoldable pub not_reg : Core → Core
not_reg c = let i = lower_down_reg c.current_inst in set_reg i (word_max - c.registers i) c

-- `curr & 0x40` is 0 or 64.
abbrev pub shift_frame : (ℕ → ℕ) → Core → Core
shift_frame shift64 c =
    let i = c.current_inst / 256 % 16 in
    set_reg i (if c.current_inst / 64 % 2 == 0 then c.registers i else shift64 (c.registers i)) c

unfoldable pub lshift : Host → Core → Core
lshift e = shift_frame e.lshift64

unfoldable pub rshift : Host → Core → Core
rshift e = shift_frame e.rshift64
