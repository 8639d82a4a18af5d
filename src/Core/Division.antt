-- ===== src/Core/Division.antt =====
-- The divisions and remainders of merry/merry_core.c.
use merry_v.Common.{
  ℕ, ◌+◌, ◌*◌, ◌/◌, ◌%◌, ◌<◌, ◌≡◌, inl, inr, refl, sym, ap₂, ◌∙◌, false, ◌||◌, arith, if◌then◌else◌,
  ◌==◌, Bool-cases, update, update_self,
}
use mathlib.Core.Path.{subst}
use merry_v.Core.{Core, Host, lower_top_reg, lower_4byte_imm, raise, stop_with}
use merry_v.Core.Arith.{div_imm, mod_imm, div_frame}

div_mod : (x y : ℕ) → 0 < y → (x / y * y + x % y ≡ x) × (x % y < y)
div_mod x y h = (omega arith, omega arith)

div_frame-value :
    (op : ℕ → ℕ → ℕ) (reg divisor : ℕ) (e : Host) (c : Core)
    → (divisor == 0) ≡ false
    → ((div_frame op reg divisor e c).registers reg ≡ op (c.registers reg) divisor)
      × ((div_frame op reg divisor e c).stop_running ≡ c.stop_running)
unfolding div_frame
div_frame-value op reg divisor e c h = rw h (update_self c.registers reg _, refl)

-- With an immediate that is not 0 the quotient of DIV_IMM and the remainder of MOD_IMM, on the
-- same core, make up the value that was divided, the remainder is below the divisor, and
-- neither instruction stops the core.
pub div_imm-mod_imm :
    (e : Host) (c : Core)
    → (lower_4byte_imm c.current_inst == 0) ≡ false
    → ((div_imm e c).registers (lower_top_reg c.current_inst) * lower_4byte_imm c.current_inst
          + (mod_imm e c).registers (lower_top_reg c.current_inst)
        ≡ c.registers (lower_top_reg c.current_inst))
      × ((mod_imm e c).registers (lower_top_reg c.current_inst) < lower_4byte_imm c.current_inst)
      × ((div_imm e c).stop_running ≡ c.stop_running)
      × ((mod_imm e c).stop_running ≡ c.stop_running)
unfolding div_imm mod_imm
div_imm-mod_imm e c h =
    let reg = lower_top_reg c.current_inst in
    let divisor = lower_4byte_imm c.current_inst in
    let (quotient, on) = div_frame-value ◌/◌ reg divisor e c h in
    let (remainder, on') = div_frame-value ◌%◌ reg divisor e c h in
    let (sum, small) = div_mod (c.registers reg) divisor (ground arith) in
    (
      ap₂ (λ q r. q * divisor + r) quotient remainder ∙ sum,
      subst (λ r. r < divisor) (sym remainder) small,
      on,
      on',
    )

-- An immediate divisor of 0 stops the core in DIV_IMM and MOD_IMM, and DIV_IMM then changes no
-- register; with any other divisor neither stops it, and DIV_IMM changes one register, to the
-- quotient.
pub div_imm-stops :
    (e : Host) (c : Core)
    → let zero_divisor = lower_4byte_imm c.current_inst == 0 in
      ((div_imm e c).stop_running ≡ (zero_divisor || c.stop_running))
      × ((mod_imm e c).stop_running ≡ (zero_divisor || c.stop_running))
      × ((div_imm e c).registers ≡ (
          if zero_divisor
          then c.registers
          else (let reg = lower_top_reg c.current_inst in
              update c.registers reg (c.registers reg / lower_4byte_imm c.current_inst))))
unfolding div_imm mod_imm div_frame stop_with raise
div_imm-stops e c = elim (Bool-cases (lower_4byte_imm c.current_inst == 0)) [
  | inl stops ↦ rw stops (refl, refl, refl)
  | inr goes ↦ rw goes (refl, refl, refl)
]
