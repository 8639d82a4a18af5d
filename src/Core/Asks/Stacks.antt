-- ===== src/Core/Asks/Stacks.antt =====
-- The instructions of merry/merry_core.c on the stack, on the console and for requests, by what they
-- ask of the request handler.
use merry_v.Common.{
  ℕ, zero, suc, ◌+◌, ◌%◌, ◌==◌, true, false, Bool, Bool-cases, inl, inr, Option, none, some, List,
}
use merry_v.Block.Endian.{load}
use merry_v.DMemory.{DMemory, DAddress, page_at}
use merry_v.DMemory.Access.{read_word}
use merry_v.Stack.{Stack, Status, success, failure, crashed}
use merry_v.Core.{
  Core, Host, stop_with, stack_overflow, stack_underflow, call_depth_reached, invalid_return,
  upper_top_reg, address48, regr_count, reg_mc,
}
use merry_v.Core.StackOps.{
  put, take, sva_at, svc_at, sva_mem, svc_mem, push_imm, push_reg, pop, pusha_loop, popa_loop,
  pusha, popa, called, returned, is_stack_full, is_stack_empty, check_stack_lim, stack_has_atleast,
}
use merry_v.Core.Control.{loop, request, halt, intr, req_reqhalt}
use merry_v.Core.Console.{
  Stdio, Conversion, scanned, stored, shown, internal_error, sin, read_chars,
}
use merry_v.Core.Switch.Access.{cmpxchg, exchanged}
use merry_v.Core.Asks.{Asks, silent, panics, requests, with_read-Asks}
use merry_v.Core.Asks.Instructions.{sva_at-Asks, svc_at-Asks, call-Asks, ret-Asks}

pub sva_mem-Asks : (c : Core) → Asks c (sva_mem c)
unfolding sva_mem
sva_mem-Asks c =
    with_read-Asks (read_word c.data_mem (address48 c.current_inst)) c sva_at
      (λ temp m. sva_at-Asks (record c { data_mem = m }) temp)

pub svc_mem-Asks : (c : Core) → Asks c (svc_mem c)
unfolding svc_mem
svc_mem-Asks c =
    with_read-Asks (read_word c.data_mem (address48 c.current_inst)) c svc_at
      (λ temp m. svc_at-Asks (record c { data_mem = m }) temp)

-- The loops only move values between the registers and the stack.
pub pusha_loop-said : (n i : ℕ) (c : Core) → Asks c (pusha_loop n i c)
unfolding pusha_loop put
pusha_loop-said zero i c = silent
pusha_loop-said (suc n) i c = pusha_loop-said n (i + 1) (put (c.registers i) c)

pub popa_loop-said : (i : ℕ) (c : Core) → Asks c (popa_loop i c)
unfolding popa_loop take
popa_loop-said zero c = silent
popa_loop-said (suc i) c = popa_loop-said i (take (suc i) c)

pub called-Asks : (out : Status × Stack) (target : ℕ) (c : Core) → Asks c (called out target c)
unfolding called stop_with
called-Asks (success, ras) target c = call-Asks (record c { ras = ras; pc = target })
called-Asks (failure, ras) target c = panics call_depth_reached
called-Asks (crashed, ras) target c = silent

pub returned-Asks : (out : Status × Option ℕ × Stack) (c : Core) → Asks c (returned out c)
unfolding returned stop_with
returned-Asks (success, out, ras) c =
    ret-Asks (record c { ras = ras; pc = elim out [ none ↦ c.pc | some pc ↦ pc ] })
returned-Asks (failure, out, ras) c = panics invalid_return
returned-Asks (crashed, out, ras) c = silent

pub exchanged-Asks :
    (e : Host) (out : Option DAddress × DMemory) (c : Core) → Asks c (exchanged e out c)
unfolding exchanged stop_with
exchanged-Asks e (none, m) c = panics m.error
exchanged-Asks e (some addr, m) c =
    let expected = upper_top_reg c.current_inst in
    let found = load 8 (page_at m addr.page) addr.offset in
    elim (Bool-cases (found == c.registers expected)) [
      | inl same ↦ rw same silent
      | inr other ↦ rw other silent
    ]

module _ (c : Core) where
  pub push_imm-Asks : Asks c (push_imm c)
  unfolding push_imm put stop_with
  push_imm-Asks = elim (Bool-cases (is_stack_full c)) [
    | inl full ↦ rw full (panics stack_overflow)
    | inr room ↦ rw room silent
  ]

  pub push_reg-Asks : Asks c (push_reg c)
  unfolding push_reg put stop_with
  push_reg-Asks = elim (Bool-cases (is_stack_full c)) [
    | inl full ↦ rw full (panics stack_overflow)
    | inr room ↦ rw room silent
  ]

  pub pop-Asks : Asks c (pop c)
  unfolding pop take stop_with
  pop-Asks = elim (Bool-cases (is_stack_empty c)) [
    | inl empty ↦ rw empty (panics stack_underflow)
    | inr filled ↦ rw filled silent
  ]

  pub pusha-Asks : Asks c (pusha c)
  unfolding pusha stop_with
  pusha-Asks = elim (Bool-cases (check_stack_lim c regr_count)) [
    | inl room ↦ rw room (pusha_loop-said regr_count 0 c)
    | inr full ↦ rw full (panics stack_overflow)
  ]

  pub popa-Asks : Asks c (popa c)
  unfolding popa stop_with
  popa-Asks = elim (Bool-cases (stack_has_atleast c regr_count)) [
    | inl filled ↦ rw filled (popa_loop-said 15 c)
    | inr empty ↦ rw empty (panics stack_underflow)
  ]

  pub loop-Asks : Asks c (loop c)
  unfolding loop
  loop-Asks = elim (Bool-cases (c.registers reg_mc == 0)) [
    | inl done ↦ rw done silent
    | inr more ↦ rw more silent
  ]

  pub halt-Asks : Asks c (halt c)
  unfolding halt request
  halt-Asks = requests req_reqhalt

  pub intr-Asks : Asks c (intr c)
  unfolding intr request
  intr-Asks = requests (c.current_inst % 65536)

  pub cmpxchg-Asks : (e : Host) → Asks c (cmpxchg e c)
  unfolding cmpxchg
  cmpxchg-Asks e = exchanged-Asks e _ c

  pub scanned-Asks : (conv : Conversion) (out : Option ℕ × List ℕ) → Asks c (scanned conv out c)
  scanned-Asks conv (none, rest) = silent
  scanned-Asks conv (some v, rest) = silent

  pub shown-Asks : (out : Option (List ℕ) × DMemory) → Asks c (shown out c)
  unfolding stop_with
  shown-Asks (none, m) = panics m.error
  shown-Asks (some str, m) = silent

  pub stored-Asks : (out : Bool × DMemory) → Asks c (stored out c)
  unfolding stop_with
  stored-Asks (true, m) = silent
  stored-Asks (false, m) = panics internal_error

pub sin-Asks : (io : Stdio) (c : Core) → Asks c (sin io c)
unfolding sin stop_with
sin-Asks io c = elim (Bool-cases (io.malloc_ok (c.registers reg_mc))) [
  | inl room ↦
      let input = (read_chars io (c.registers reg_mc) c.input).1 in
      rw room (stored-Asks (record c { input = input }) _)
  | inr full ↦ rw full (panics internal_error)
]
