-- ===== src/Core/Moves.antt =====
-- The moves, exchanges, INC, DEC and LEA of merry/merry_core.c.
use merry_v.Common.{ℕ, ◌+◌, ◌*◌, ◌/◌, ◌%◌, if◌then◌else◌, ◌==◌, wrap, word_max, bit_or, bit_and}
use merry_v.Core.{Core, lower_top_reg, lower_up_reg, lower_down_reg, set_reg, get_immediate}

unfoldable pub move_imm : Core → Core
move_imm c = set_reg (lower_top_reg c.current_inst) (c.current_inst % 4294967296) c

unfoldable pub move_imm_64 : Core → Core
unfolding get_immediate
move_imm_64 c = let (v, c') = get_immediate c in set_reg (lower_down_reg c.current_inst) v c'

-- The body that the moves between registers share: what the source's value becomes.
abbrev pub move_with : (ℕ → ℕ) → Core → Core
move_with f c =
    set_reg (lower_up_reg c.current_inst) (f (c.registers (lower_down_reg c.current_inst))) c

unfoldable pub move_reg : Core → Core
move_reg = move_with (λ v. v)

unfoldable pub move_reg8 : Core → Core
move_reg8 = move_with (λ v. v % 256)

unfoldable pub move_reg16 : Core → Core
move_reg16 = move_with (λ v. v % 65536)

-- The mask is 0xFFFFFF.
unfoldable pub move_reg32 : Core → Core
move_reg32 = move_with (λ v. v % 16777216)

-- 0xFFFFFFFFFFFFFF00, 0xFFFFFFFFFFFF0000 and 0xFFFFFFFFFF000000
abbrev pub extend8 : ℕ
extend8 = 18446744073709551360

abbrev pub extend16 : ℕ
extend16 = 18446744073709486080

abbrev pub extend24 : ℕ
extend24 = 18446744073692774400

-- `if (lbyte >> bits == 1) lbyte = lbyte | extend;`, with `top` for 2 ^ bits.
unfoldable pub sign_extend : ℕ → ℕ → ℕ → ℕ
sign_extend top extend lbyte = if lbyte / top == 1 then bit_or lbyte extend else lbyte

unfoldable pub movesx_imm8 : Core → Core
unfolding sign_extend
movesx_imm8 c =
    set_reg (lower_top_reg c.current_inst) (sign_extend 128 extend8 (c.current_inst % 256)) c

unfoldable pub movesx_imm16 : Core → Core
unfolding sign_extend
movesx_imm16 c =
    set_reg (lower_top_reg c.current_inst) (sign_extend 32768 extend16 (c.current_inst % 65536)) c

-- The mask is 0xFFFFFF and the sign is taken from bit 31.
unfoldable pub movesx_imm32 : Core → Core
unfolding sign_extend
movesx_imm32 c =
    set_reg (lower_top_reg c.current_inst)
      (sign_extend 2147483648 extend24 (c.current_inst % 16777216)) c

unfoldable pub movesx_reg8 : Core → Core
unfolding sign_extend
movesx_reg8 = move_with (λ v. sign_extend 128 extend8 (v % 256))

unfoldable pub movesx_reg16 : Core → Core
unfolding sign_extend
movesx_reg16 = move_with (λ v. sign_extend 32768 extend16 (v % 65536))

unfoldable pub movesx_reg32 : Core → Core
unfolding sign_extend
movesx_reg32 = move_with (λ v. sign_extend 2147483648 extend24 (v % 16777216))

-- The body that EXCG8, EXCG16 and EXCG32 share: both registers are masked with the low bits of the
-- other, read before either changes.
abbrev pub excg_masked : ℕ → Core → Core
excg_masked low c =
    let i = lower_up_reg c.current_inst in
    let j = lower_down_reg c.current_inst in
    let reg1 = c.registers i in
    let reg2 = c.registers j in
    let c' = set_reg i (bit_and (c.registers i) (bit_or extend8 (reg2 % low))) c in
    set_reg j (bit_and (c'.registers j) (bit_or extend8 (reg1 % low))) c'

unfoldable pub excg8 : Core → Core
excg8 = excg_masked 256

unfoldable pub excg16 : Core → Core
excg16 = excg_masked 65536

unfoldable pub excg32 : Core → Core
excg32 = excg_masked 16777216

unfoldable pub excg : Core → Core
excg c =
    let i = lower_up_reg c.current_inst in
    let j = lower_down_reg c.current_inst in
    let reg1 = c.registers i in let reg2 = c.registers j in set_reg j reg1 (set_reg i reg2 c)

-- The body that MOV8, MOV16 and MOV32 share: `&=` with the source's low bits under ones.
abbrev pub mov_masked : ℕ → ℕ → Core → Core
mov_masked high low c =
    let i = lower_up_reg c.current_inst in
    set_reg i
      (bit_and (c.registers i) (bit_or high (c.registers (lower_down_reg c.current_inst) % low))) c

unfoldable pub mov8 : Core → Core
mov8 = mov_masked extend8 256

unfoldable pub mov16 : Core → Core
mov16 = mov_masked extend16 65536

unfoldable pub mov32 : Core → Core
mov32 = mov_masked extend24 16777216

unfoldable pub inc : Core → Core
inc c = let i = lower_down_reg c.current_inst in set_reg i (wrap (c.registers i + 1)) c

unfoldable pub dec : Core → Core
dec c = let i = lower_down_reg c.current_inst in set_reg i (wrap (c.registers i + word_max)) c

unfoldable pub lea : Core → Core
lea c =
    let field : ℕ → ℕ = λ top. c.registers (c.current_inst / top % 16) in
    set_reg (c.current_inst / 16777216 % 16)
      (wrap (field 65536 + field 256 * c.registers (lower_down_reg c.current_inst))) c
