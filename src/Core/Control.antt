-- ===== src/Core/Control.antt =====
-- The comparisons, the flags and the control instructions of merry/merry_core.c.
use merry_v.Common.{
  ℕ, ◌+◌, ◌-◌, ◌/◌, ◌%◌, Bool, true, false, not, ◌||◌, if◌then◌else◌, ◌==◌, ◌++◌, ltb, wrap, bit_or,
}
use merry_v.Core.{
  Core, lower_up_reg, lower_down_reg, address48, set_reg, get_immediate, cmp_inst, reg_mc,
}
use merry_v.RequestHdlr

-- What a comparison of two values leaves: `greater` is set and never cleared.
unfoldable pub compare : ℕ → ℕ → Core → Core
compare x y c = record c { flag = cmp_inst x y; greater = if ltb y x then true else c.greater }

unfoldable pub cmp_imm : Core → Core
unfolding compare get_immediate
cmp_imm c =
    let (imm, c') = get_immediate c in compare (c.registers (lower_down_reg c.current_inst)) imm c'

unfoldable pub cmp_reg : Core → Core
unfolding compare
cmp_reg c =
    compare (c.registers (lower_up_reg c.current_inst))
      (c.registers (lower_down_reg c.current_inst)) c

unfoldable pub cflags : Core → Core
cflags c = record c {
  flag = record { carry = false; zero = false; negative = false; overflow = false };
  greater = false;
}

unfoldable pub clc : Core → Core
clc c = record c { flag = record c.flag { carry = false } }

unfoldable pub clz : Core → Core
clz c = record c { flag = record c.flag { zero = false } }

unfoldable pub cln : Core → Core
cln c = record c { flag = record c.flag { negative = false } }

unfoldable pub clo : Core → Core
clo c = record c { flag = record c.flag { overflow = false } }

-- `if (test) c->pc = (*current & 0xFFFFFFFFFFFF);`
abbrev pub jump_if : Bool → Core → Core
jump_if test c = record c { pc = if test then address48 c.current_inst else c.pc }

-- Bit 47 of the offset is its sign: the extension ors 0xFFFF000000000000.
unfoldable pub jmp_off : Core → Core
jmp_off c =
    let off = address48 c.current_inst in
    let extended = if off / 140737488355328 == 1 then bit_or off 18446462598732840960 else off in
    record c { pc = wrap (c.pc + extended) }

unfoldable pub jmp_addr : Core → Core
jmp_addr = jump_if true

-- OP_JZ and OP_JE
unfoldable pub jz : Core → Core
jz c = jump_if c.flag.zero c

-- OP_JNZ and OP_JNE
unfoldable pub jnz : Core → Core
jnz c = jump_if (not c.flag.zero) c

unfoldable pub jnc : Core → Core
jnc c = jump_if (not c.flag.carry) c

unfoldable pub jc : Core → Core
jc c = jump_if c.flag.carry c

unfoldable pub jno : Core → Core
jno c = jump_if (not c.flag.overflow) c

unfoldable pub jo : Core → Core
jo c = jump_if c.flag.overflow c

unfoldable pub jnn : Core → Core
jnn c = jump_if (not c.flag.negative) c

unfoldable pub jn : Core → Core
jn c = jump_if c.flag.negative c

-- OP_JS and OP_JNG
unfoldable pub jng : Core → Core
jng c = jump_if (not c.greater) c

-- OP_JNS and OP_JG
unfoldable pub jg : Core → Core
jg c = jump_if c.greater c

-- The zero flag must be clear for it to count.
unfoldable pub jge : Core → Core
jge c = jump_if (c.greater || not c.flag.zero) c

unfoldable pub jse : Core → Core
jse c = jump_if (not c.greater || not c.flag.zero) c

unfoldable pub loop : Core → Core
loop c =
    if c.registers reg_mc == 0
    then c
    else set_reg reg_mc (c.registers reg_mc - 1) (record c { pc = address48 c.current_inst })

-- A push of a request by the core: whether it was taken, and the core after it.
unfoldable pub request : ℕ → Core → Bool × Core
unfolding RequestHdlr.push_request_hdlr
request req_id c =
    let (pushed, effects, h) = RequestHdlr.push_request_hdlr c.hdlr req_id c.core_id c.cond in
    (pushed, record c { hdlr = h; effects = c.effects ++ effects })

-- _REQ_151
abbrev pub req_reqhalt : ℕ
req_reqhalt = 151

unfoldable pub halt : Core → Core
unfolding request
halt c = record ((request req_reqhalt c).1) { stop_running = true }

unfoldable pub intr : Core → Core
unfolding request
intr c =
    let (pushed, c') = request (c.current_inst % 65536) c in
    record c' { stop_running = if pushed then c'.stop_running else true }

unfoldable pub set_excp : Core → Core
set_excp c = record c { exception_address = address48 c.current_inst }
