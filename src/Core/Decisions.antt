-- ===== src/Core/Decisions.antt =====
-- The comparisons and conditional jumps of merry/merry_core.c together.
use merry_v.Common.{ℕ, zero, suc, ◌-◌, ◌≤◌, ◌≡◌, ◌∙◌, false, ◌||◌, arith, if◌then◌else◌, ◌==◌, ltb}
use merry_v.Core.{Core, lower_up_reg, lower_down_reg, address48, cmp_inst, reg_mc, with_inst}
use merry_v.Core.Control.{cmp_reg, compare, jz, jnz, jc, jnc, jg, jge, loop}

-- After CMP_REG of x and y, JZ and JNZ go to their address exactly if x = y or not, JC and JNC
-- exactly if x < y or not, and JG exactly if x > y or an earlier comparison had found greater.
pub cmp_reg-jumps :
    (c : Core) (inst : ℕ)
    → (let x = c.registers (lower_up_reg c.current_inst) in
        let y = c.registers (lower_down_reg c.current_inst) in
        let c' = with_inst inst (cmp_reg c) in
        ((jz c').pc ≡ (if x == y then address48 inst else c.pc))
        × ((jnz c').pc ≡ (if x == y then c.pc else address48 inst))
        × ((jc c').pc ≡ (if ltb x y then address48 inst else c.pc))
        × ((jnc c').pc ≡ (if ltb x y then c.pc else address48 inst))
        × ((jg c').pc ≡ (if ltb y x || c.greater then address48 inst else c.pc)))
unfolding cmp_reg compare cmp_inst jz jnz jc jnc jg
cmp_reg-jumps c inst = (ground arith, ground arith, ground arith, ground arith, ground arith)

-- On a core on which no comparison has found greater, JGE after CMP_REG jumps exactly if the
-- two values differ.
pub cmp_reg-jge :
    (c : Core) (inst : ℕ)
    → c.greater ≡ false
    → (jge (with_inst inst (cmp_reg c))).pc ≡ (
        if c.registers (lower_up_reg c.current_inst) == c.registers (lower_down_reg c.current_inst)
        then c.pc
        else address48 inst)
unfolding cmp_reg compare cmp_inst jge
cmp_reg-jge c inst h = ground arith

-- LOOP over and over.
unfoldable pub loops : ℕ → Core → Core
unfolding loop
loops zero c = c
loops (suc n) c = loop (loops n c)

loops-mc :
    (c : Core) (n : ℕ)
    → n ≤ c.registers reg_mc
    → (loops n c).registers reg_mc ≡ c.registers reg_mc - n
unfolding loops loop
loops-mc c zero h = ground arith
loops-mc c (suc n) h =
    let before : (loops n c).registers reg_mc ≡ c.registers reg_mc - n =
      loops-mc c n (omega arith) in
    ground arith

-- LOOP taken n times, for n up to Mc, leaves Mc - n in Mc; taken as often as Mc counts, one
-- more changes nothing.
pub loops-count :
    (c : Core) (n : ℕ)
    → n ≤ c.registers reg_mc
    → ((loops n c).registers reg_mc ≡ c.registers reg_mc - n)
      × ((loop (loops (c.registers reg_mc) c)) ≡ loops (c.registers reg_mc) c)
unfolding loops loop
loops-count c n h =
    let spent : (loops (c.registers reg_mc) c).registers reg_mc ≡ 0 =
      loops-mc c (c.registers reg_mc) (omega arith) ∙ omega arith in
    (loops-mc c n h, ground arith)
