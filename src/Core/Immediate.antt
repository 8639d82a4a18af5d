-- ===== src/Core/Immediate.antt =====
-- The 64-bit immediates of merry/merry_core.c and the linear instruction memory.
use merry_v.Common.{
  ◌+◌, ◌<◌, ◌≡◌, inl, inr, refl, ap, ◌∙◌, true, none, some, arith, if◌then◌else◌, ltb, Bool-cases,
  wrap,
}
use merry_v.Core.{Core, raise, get_immediate, immediate_from}
use merry_v.Memory
use merry_v.Memory.{fault}
use merry_v.Memory.Laws.{flat, size, address_limit, read_inst-linear}

ran :
    (c : Core)
    → c.pc + 1 < address_limit
    → get_immediate c
      ≡ immediate_from
          (if ltb (c.pc + 1) (size c.inst_mem)
            then (some (flat c.inst_mem (c.pc + 1)), c.inst_mem)
            else (none, fault c.inst_mem))
          (record c { pc = c.pc + 1 })
unfolding get_immediate
ran c lt =
    let next : wrap (c.pc + 1) ≡ c.pc + 1 = omega arith in
    ap (λ pc. immediate_from (Memory.read c.inst_mem pc) (record c { pc = pc })) next
    ∙ ap (λ r. immediate_from r (record c { pc = c.pc + 1 }))
        (read_inst-linear c.inst_mem (c.pc + 1) lt)

-- With the program counter and its successor below 2 ^ 49, `merry_core_get_immediate` returns
-- the qword behind the one the counter is at and leaves the counter on it. If there is none the
-- value is 0 and the core stops, with the counter moved too.
pub get_immediate-linear :
    (c : Core)
    → c.pc + 1 < address_limit
    → ((get_immediate c).0
        ≡ (if ltb (c.pc + 1) (size c.inst_mem) then flat c.inst_mem (c.pc + 1) else 0))
      × ((get_immediate c).1.pc ≡ c.pc + 1)
      × ((get_immediate c).1.stop_running
          ≡ (if ltb (c.pc + 1) (size c.inst_mem) then c.stop_running else true))
unfolding immediate_from raise
get_immediate-linear c lt = rw (ran c lt) (elim (Bool-cases (ltb (c.pc + 1) (size c.inst_mem))) [
  | inl inside ↦ rw inside (refl, refl, refl)
  | inr outside ↦ rw outside (refl, refl, refl)
])
