-- ===== src/Core/Calls.antt =====
-- CALL and RET of merry/merry_core.c with the stack of return addresses.
use merry_v.Common.{
  ℕ, ◌+◌, ◌<◌, ◌≡◌, refl, ap, ◌∙◌, true, false, Option, some, arith, update, wrap, word_mod,
}
use merry_v.Core.{Core, Host, address48, with_inst}
use merry_v.Stack
use merry_v.Stack.{Stack, Status, success, failure, crashed}
use merry_v.Stack.Inv.{IsValid, Realloc}
use merry_v.Stack.Lifo.{contents, accepts, push-contents, pop-push}
use merry_v.Core.StackOps.{
  op_call, op_ret, called, returned, call, ret, is_stack_full, is_stack_empty, check_stack_lim,
  stack_has_atleast,
}

-- With a stack pointer below 131067, the frame that a call opens saves the base pointer over
-- the value on top of the stack and points the base one cell above it, so that the frame's
-- return takes as base pointer the cell above the saved one.
pub ret-call :
    (c : Core) (inst : ℕ)
    → c.sp < 131067
    → ((call c).stack_mem c.sp ≡ c.bp)
      × ((call c).bp ≡ c.sp + 1)
      × ((ret (with_inst inst (call c))).bp ≡ c.stack_mem (c.sp + 1))
unfolding call ret
ret-call c inst h = (ground arith, ground arith, ground arith)

called-success :
    (out : Status × Stack) (target : ℕ) (c : Core)
    → out.0 ≡ success
    → called out target c ≡ call (record c { ras = out.1; pc = target })
unfolding called
called-success (status, ras) target c e = rw e refl

returned-success :
    (out : Status × Option ℕ × Stack) (pc : ℕ) (c : Core)
    → out.0 ≡ success
    → out.1 ≡ some pc
    → returned out c ≡ ret (record c { ras = out.2; pc = pc })
unfolding returned
returned-success (status, popped, ras) pc c e p = rw (e, p) refl

-- The core of a call that is not refused.
abbrev opened : Stack → ℕ → Core → Core
opened ras target c = record c {
  ras = ras;
  pc = target;
  stack_mem = update c.stack_mem c.sp c.bp;
  sp = c.sp + 1;
  bp = c.sp + 1;
}

call-opened : (c : Core) → c.sp < 131067 → call c ≡ opened c.ras c.pc c
unfolding call
call-opened c h =
    let full : is_stack_full c ≡ false = ground arith in
    let room : check_stack_lim c 4 ≡ true = ground arith in
    let next : wrap (c.sp + 1) ≡ c.sp + 1 = omega arith in rw (full, room, next) refl

ret-opened : (c : Core) → c.sp < 131072 → ret c ≡ record c { bp = c.stack_mem c.bp }
unfolding ret
ret-opened c h =
    let some_left : is_stack_empty c ≡ false = ground arith in
    let enough : stack_has_atleast c 1 ≡ true = ground arith in rw (some_left, enough) refl

-- With a return address stack that is valid and accepts one more, a realloc that keeps the old
-- values, and a stack pointer below 131067, CALL goes to its address, and RET right after it
-- comes back to the instruction behind the call, leaves the return addresses as they were and
-- does not stop the core.
pub op_ret-op_call :
    (e : Host) (c : Core) (inst : ℕ)
    → IsValid c.ras
    → Realloc e.realloc c.ras.size
    → 0 < c.ras.add_per_resize
    → c.ras.size + c.ras.add_per_resize < word_mod
    → accepts e.realloc c.ras ≡ true
    → c.sp < 131067
    → ((op_call e c).pc ≡ address48 c.current_inst)
      × ((op_ret (with_inst inst (op_call e c))).pc ≡ c.pc)
      × (contents (op_ret (with_inst inst (op_call e c))).ras ≡ contents c.ras)
      × ((op_ret (with_inst inst (op_call e c))).stop_running ≡ c.stop_running)
unfolding op_call op_ret
op_ret-op_call e c inst valid r grows small room h =
    let out = Stack.push e.realloc c.ras c.pc in
    let target = address48 c.current_inst in
    let (done, held, stacked) = push-contents e.realloc c.pc valid r grows small room in
    let (popped, value, same) = pop-push e.realloc c.pc valid r grows small room in
    let went : op_call e c ≡ opened out.1 target c =
      called-success out target c done ∙ call-opened (record c { ras = out.1; pc = target }) h in
    let popping = Stack.pop out.1 in
    let back =
      returned-success popping c.pc (with_inst inst (opened out.1 target c)) popped value
      ∙ ret-opened
          (record c {
            current_inst = inst;
            ras = popping.2;
            stack_mem = update c.stack_mem c.sp c.bp;
            sp = c.sp + 1;
            bp = c.sp + 1;
          })
          (omega arith) in
    rw went (
      refl,
      ap (λ (d : Core). d.pc) back,
      ap (λ (d : Core). contents d.ras) back ∙ same,
      ap (λ (d : Core). d.stop_running) back,
    )
