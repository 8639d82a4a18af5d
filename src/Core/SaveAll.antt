-- ===== src/Core/SaveAll.antt =====
-- PUSHA and POPA of merry/merry_core.c together.
use merry_v.Common.{
  ℕ, zero, suc, ◌+◌, ◌-◌, ◌<◌, ◌≡◌, inl, inr, refl, ap, ◌∙◌, true, ◌&&◌, arith, if◌then◌else◌, leb,
  Bool-cases, wrap, word_mod, word_max,
}
use merry_v.Core.{Core, regr_count}
use merry_v.Core.StackOps.{pusha, popa, pusha_loop, popa_loop, put, take, check_stack_lim}
use merry_v.Core.PushPop.{IsStack, depth}

-- What the loop of PUSHA does from a stack of depth `s` on: the cells from `s` up get the registers
-- from `i` on, and those below stay.
record Pushed (n i s : ℕ) (c out : Core) : Type 0 where
  pub same : out.registers ≡ c.registers
  pub top : wrap (out.sp + 1) ≡ s + n
  pub word : out.sp < word_mod
  pub cells : (j : ℕ) → j < n → out.stack_mem (s + j) ≡ c.registers (i + j)
  pub below : (k : ℕ) → k < s → out.stack_mem k ≡ c.stack_mem k
  pub running : out.stop_running ≡ c.stop_running

pusha_loop-Pushed :
    (n i s : ℕ) (c : Core)
    → c.sp < word_mod
    → wrap (c.sp + 1) ≡ s
    → s + n < word_mod
    → Pushed n i s c (pusha_loop n i c)
unfolding pusha_loop put
pusha_loop-Pushed zero i s c word e small = record {
  same = refl;
  top = omega arith;
  word = word;
  cells = λ j lt. absurd (omega arith);
  below = λ k lt. refl;
  running = refl;
}
pusha_loop-Pushed (suc n) i s c word e small =
    let rest =
      pusha_loop-Pushed n (i + 1) (s + 1) (put (c.registers i) c) (omega arith) (omega arith)
        (omega arith) in
    record {
      same = rest.same;
      top = rest.top ∙ omega arith;
      word = rest.word;
      cells = stacked rest;
      below = λ k lt. rest.below k (omega arith) ∙ ground arith;
      running = rest.running;
    }
  where
    stacked :
        {out : Core}
        → Pushed n (i + 1) (s + 1) (put (c.registers i) c) out
        → (j : ℕ) → j < suc n
        → out.stack_mem (s + j) ≡ c.registers (i + j)
    stacked {out} rest zero lt =
        ap out.stack_mem (omega arith) ∙ rest.below s (omega arith) ∙ ground arith
    stacked {out} rest (suc j) lt =
        ap out.stack_mem (omega arith) ∙ rest.cells j (omega arith) ∙ ap c.registers (omega arith)

-- What the loop of POPA does with `i` values above cell `s`.
record Restored (i s : ℕ) (c out : Core) : Type 0 where
  pub top : out.sp ≡ s
  pub memory : out.stack_mem ≡ c.stack_mem
  pub registers :
      (k : ℕ)
      → out.registers k ≡ (if leb 1 k && leb k i then c.stack_mem (s + k) else c.registers k)
  pub running : out.stop_running ≡ c.stop_running

popa_loop-Restored :
    (i s : ℕ) (c : Core) → c.sp ≡ s + i → s + i < word_mod → Restored i s c (popa_loop i c)
unfolding popa_loop take
popa_loop-Restored zero s c e small = record {
  top = omega arith;
  memory = refl;
  registers = λ k. ground arith;
  running = refl;
}
popa_loop-Restored (suc i) s c e small =
    let rest = popa_loop-Restored i s (take (suc i) c) (omega arith) (omega arith) in
    record {
      top = rest.top;
      memory = rest.memory;
      registers = λ k. rest.registers k ∙ ground arith;
      running = rest.running;
    }

saved_back :
    {c out after : Core} {s : ℕ}
    → Pushed 16 0 s c out
    → Restored 15 s out after
    → ((i : ℕ) → after.registers i ≡ c.registers i)
      × (after.stack_mem s ≡ c.registers 0)
      × (after.stop_running ≡ c.stop_running)
saved_back {c} {out} {after} {s} pushed restored = (
  each,
  ap (λ f. f s) restored.memory ∙ ap out.stack_mem (omega arith) ∙ pushed.cells 0 (omega arith),
  restored.running ∙ pushed.running,
)
  where
    each : (i : ℕ) → after.registers i ≡ c.registers i
    each i = elim (Bool-cases (leb 1 i && leb i 15)) [
      | inl inside ↦
          restored.registers i
          ∙ rw inside (pushed.cells i (ground arith) ∙ ap c.registers (omega arith))
      | inr outside ↦ restored.registers i ∙ rw outside (ap (λ f. f i) pushed.same)
    ]

-- On a stack in reach with room for the 16 registers, POPA after PUSHA gives every register its
-- value back and neither stops the core; POPA takes one value less than PUSHA put, so that of
-- Ma stays on the stack.
pub popa-pusha :
    (c : Core)
    → IsStack c
    → check_stack_lim c regr_count ≡ true
    → ((i : ℕ) → (popa (pusha c)).registers i ≡ c.registers i)
      × ((popa (pusha c)).sp ≡ depth c)
      × ((popa (pusha c)).stack_mem (depth c) ≡ c.registers 0)
      × ((popa (pusha c)).stop_running ≡ c.stop_running)
unfolding depth pusha popa
popa-pusha c ok room =
    let pushed = pusha_loop-Pushed regr_count 0 (depth c) c ok.word refl (omega arith) in
    let out = pusha_loop regr_count 0 c in
    let at_top : out.sp ≡ depth c + 15 = omega arith in
    let many : leb (regr_count - 1) out.sp ≡ true = ground arith in
    let restored = popa_loop-Restored 15 (depth c) out at_top (omega arith) in
    let (registers, memory, running) = saved_back pushed restored in
    rw (room, many) (registers, restored.top, memory, running)

-- On an empty stack POPA is not refused: it goes on and reads 15 cells before the first.
pub popa-empty :
    (c : Core)
    → c.sp ≡ word_max
    → ((popa c).stop_running ≡ c.stop_running)
      × ((popa c).sp ≡ word_max - 15)
      × ((popa c).registers 15 ≡ c.stack_mem word_max)
unfolding popa popa_loop take
popa-empty c e = ground arith
