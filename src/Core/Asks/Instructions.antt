-- ===== src/Core/Asks/Instructions.antt =====
-- The divisions, the instructions with an operand in memory and the calls of merry/merry_core.c, by what
-- they ask of the request handler.
use merry_v.Common.{ℕ, ◌==◌, ◌||◌, not, ltb, true, Bool-cases, inl, inr, if◌then◌else◌}
use merry_v.DMemory.Access.{Width, read}
use merry_v.Core.{
  Core, Host, stop_with, div_by_zero, stack_overflow, stack_underflow, invalid_variable_access,
  lower_top_reg, set_reg, update_flags, cmp_inst,
}
use merry_v.Core.Arith.{div_frame}
use merry_v.Core.ArithMem.{mem_address, mem_frame, div_mem_frame, cmp_mem}
use merry_v.Core.Floats.{Format, float_mem, float_div_mem, float_result, cmp_floats}
use merry_v.Core.StackOps.{
  call, ret, sva_at, svc_at, is_stack_full, is_stack_empty, check_stack_lim, stack_has_atleast,
}
use merry_v.Core.Asks.{Asks, silent, panics, with_read-Asks}

module _ (c : Core) where
  pub div_frame-Asks :
      (op : ℕ → ℕ → ℕ) (reg divisor : ℕ) (e : Host) → Asks c (div_frame op reg divisor e c)
  unfolding div_frame stop_with
  div_frame-Asks op reg divisor e = elim (Bool-cases (divisor == 0)) [
    | inl by_zero ↦ rw by_zero (panics div_by_zero)
    | inr whole ↦ rw whole silent
  ]

  pub mem_frame-Asks : (op : ℕ → ℕ → ℕ) (w : Width) (e : Host) → Asks c (mem_frame op w e c)
  unfolding mem_frame
  mem_frame-Asks op w e =
      let reg = lower_top_reg c.current_inst in
      with_read-Asks (read w c.data_mem (mem_address c.current_inst)) c
        (λ temp c'. update_flags e (set_reg reg (op (c'.registers reg) temp) c')) (λ temp m. silent)

  pub div_mem_frame-Asks : (op : ℕ → ℕ → ℕ) (w : Width) (e : Host) → Asks c (div_mem_frame op w e c)
  unfolding div_mem_frame stop_with
  div_mem_frame-Asks op w e =
      let reg = lower_top_reg c.current_inst in
      with_read-Asks (read w c.data_mem (mem_address c.current_inst)) c
        (λ temp c'.
          if temp == 0
          then stop_with div_by_zero c'
          else update_flags e (set_reg reg (op (c'.registers reg) temp) c'))
        (λ temp m. elim (Bool-cases (temp == 0)) [
          | inl by_zero ↦ rw by_zero (panics div_by_zero)
          | inr whole ↦ rw whole silent
        ])

  pub cmp_mem-Asks : (w : Width) (e : Host) → Asks c (cmp_mem w e c)
  unfolding cmp_mem
  cmp_mem-Asks w e =
      let reg = c.registers (lower_top_reg c.current_inst) in
      with_read-Asks (read w c.data_mem (mem_address c.current_inst)) c
        (λ temp c'. record c' {
          flag = cmp_inst reg temp;
          greater = if ltb temp reg then true else c'.greater;
        })
        (λ temp m. silent)

  pub float_mem-Asks :
      (compared : Format) (op : ℕ → ℕ → ℕ) (w : Width) → Asks c (float_mem compared op w c)
  unfolding float_mem float_result cmp_floats
  float_mem-Asks compared op w =
      let reg = lower_top_reg c.current_inst in
      with_read-Asks (read w c.data_mem (mem_address c.current_inst)) c
        (λ temp c'. float_result compared reg (op (c'.registers reg) temp) temp c')
        (λ temp m. silent)

  pub float_div_mem-Asks : (f compared : Format) (w : Width) → Asks c (float_div_mem f compared w c)
  unfolding float_div_mem float_result cmp_floats stop_with
  float_div_mem-Asks f compared w =
      let reg = lower_top_reg c.current_inst in
      with_read-Asks (read w c.data_mem (mem_address c.current_inst)) c
        (λ temp c'.
          if f.is_zero temp
          then stop_with div_by_zero c'
          else float_result compared reg (f.mul (c'.registers reg) temp) temp c')
        (λ temp m. elim (Bool-cases (f.is_zero temp)) [
          | inl by_zero ↦ rw by_zero (panics div_by_zero)
          | inr whole ↦ rw whole silent
        ])

  pub sva_at-Asks : (off : ℕ) → Asks c (sva_at off c)
  unfolding sva_at stop_with
  sva_at-Asks off = elim (Bool-cases (ltb c.bp off)) [
    | inl outside ↦ rw outside (panics invalid_variable_access)
    | inr inside ↦ rw inside silent
  ]

  pub svc_at-Asks : (off : ℕ) → Asks c (svc_at off c)
  unfolding svc_at stop_with
  svc_at-Asks off = elim (Bool-cases (ltb c.bp off)) [
    | inl outside ↦ rw outside (panics invalid_variable_access)
    | inr inside ↦ rw inside silent
  ]

  pub call-Asks : Asks c (call c)
  unfolding call stop_with
  call-Asks = elim (Bool-cases (is_stack_full c || not (check_stack_lim c 4))) [
    | inl full ↦ rw full (panics stack_overflow)
    | inr room ↦ rw room silent
  ]

  pub ret-Asks : Asks c (ret c)
  unfolding ret stop_with
  ret-Asks = elim (Bool-cases (is_stack_empty c || not (stack_has_atleast c 1))) [
    | inl empty ↦ rw empty (panics stack_underflow)
    | inr filled ↦ rw filled silent
  ]
