-- ===== src/Core/FloatDivision.antt =====
-- FDIV_MEM and FMUL_MEM of merry/merry_core.c compared.
use merry_v.Common.{ℕ, ◌≡◌, refl, false, some}
use merry_v.DMemory.{DMemory}
use merry_v.DMemory.Access.{qword, read}
use merry_v.Core.{Core}
use merry_v.Core.ArithMem.{with_read, mem_address}
use merry_v.Core.Floats.{Floats, fdiv64_mem, fmul64_mem, float_mem, float_div_mem}

-- With an operand that is not 0 in the data memory FDIV_MEM does what FMUL_MEM does.
pub fdiv64_mem-fmul64_mem :
    (fl : Floats) (c : Core) {temp : ℕ} {m : DMemory}
    → read qword c.data_mem (mem_address c.current_inst) ≡ (some temp, m)
    → fl.double.is_zero temp ≡ false
    → fdiv64_mem fl c ≡ fmul64_mem fl c
unfolding fdiv64_mem fmul64_mem float_mem float_div_mem with_read
fdiv64_mem-fmul64_mem fl c e h = rw (e, h) refl
