-- ===== src/Core/Transfer.antt =====
-- The loads and stores of merry/merry_core.c on the linear data memory.
use merry_v.Common.{
  ℕ, ◌<◌, ◌≡◌, refl, ◌∙◌, Bool, true, false, Option, none, some, update_self, word_mod,
}
use merry_v.Core.{Core, lower_top_reg, raise, stop_with, with_inst}
use merry_v.DMemory.{DMemory, fault}
use merry_v.DMemory.Access.{qword, read, write}
use merry_v.DMemory.Inv.{IsValid}
use merry_v.DMemory.Flat.{flat, address_limit}
use merry_v.DMemory.Linear.{fits, read-linear, write-Writes}
use merry_v.DMemory.Words.{read-write}
use merry_v.Core.LoadStore.{load, store, load_from, store_to}
use merry_v.Core.ArithMem.{with_read}

store_to-done :
    (out : Bool × DMemory) (c : Core)
    → out.0 ≡ true
    → store_to out c ≡ record c { data_mem = out.1 }
unfolding store_to
store_to-done (stored, m) c e = rw e refl

store_to-refused :
    (out : Bool × DMemory) (c : Core)
    → out.0 ≡ false
    → ((store_to out c).stop_running ≡ true)
      × ((store_to out c).registers ≡ c.registers)
      × ((store_to out c).data_mem ≡ out.1)
unfolding store_to stop_with raise
store_to-refused (stored, m) c e = rw e (refl, refl, refl)

load_from-done :
    (out : Option ℕ × DMemory) (reg : ℕ) (c : Core) (v : ℕ) (m : DMemory)
    → out ≡ (some v, m)
    → (load_from out reg c).registers reg ≡ v
unfolding load_from with_read
load_from-done out reg c v m e = rw e (update_self c.registers reg v)

load_from-refused :
    (out : Option ℕ × DMemory) (reg : ℕ) (c : Core) (m : DMemory)
    → out ≡ (none, m)
    → ((load_from out reg c).stop_running ≡ true) × ((load_from out reg c).registers ≡ c.registers)
unfolding load_from with_read stop_with raise
load_from-refused out reg c m e = rw e (refl, refl)

-- STORE, then LOAD from the same address below 2 ^ 52 into a register, gives that register the
-- 64-bit value stored, in a valid data memory where eight bytes fit at the address.
pub load-store :
    (c : Core) (inst a : ℕ)
    → IsValid c.data_mem
    → a < address_limit
    → c.registers (lower_top_reg c.current_inst) < word_mod
    → fits 8 c.data_mem a ≡ true
    → (load a (with_inst inst (store a c))).registers (lower_top_reg inst)
      ≡ c.registers (lower_top_reg c.current_inst)
unfolding load store
load-store c inst a ok lt small room =
    let value = c.registers (lower_top_reg c.current_inst) in
    let out = write qword c.data_mem a value in
    let stored : store a c ≡ record c { data_mem = out.1 } =
      store_to-done out c ((write-Writes qword a value ok lt small).status ∙ room) in
    rw stored (
      load_from-done (read qword out.1 a) (lower_top_reg inst)
        (with_inst inst (record c { data_mem = out.1 })) value out.1
        (read-write qword a value ok lt small room))

-- Below 2 ^ 52 in a valid data memory, where eight bytes do not fit, LOAD, and STORE of a
-- 64-bit value, stop the core and leave its registers, and STORE leaves every byte of the
-- memory.
pub transfer-refused :
    (c : Core) (a : ℕ)
    → IsValid c.data_mem
    → a < address_limit
    → c.registers (lower_top_reg c.current_inst) < word_mod
    → fits 8 c.data_mem a ≡ false
    → ((load a c).stop_running ≡ true)
      × ((load a c).registers ≡ c.registers)
      × ((store a c).stop_running ≡ true)
      × ((store a c).registers ≡ c.registers)
      × ((j : ℕ) → flat (store a c).data_mem j ≡ flat c.data_mem j)
unfolding load store
transfer-refused c a ok lt small room =
    let value = c.registers (lower_top_reg c.current_inst) in
    let out = write qword c.data_mem a value in
    let done = write-Writes qword {m = c.data_mem} a value ok lt small in
    let (loaded, kept) =
      load_from-refused (read qword c.data_mem a) (lower_top_reg c.current_inst) c
        (fault c.data_mem) (read-linear qword c.data_mem a lt ∙ rw room refl) in
    let (stored, held, memory) = store_to-refused out c (done.status ∙ room) in
    (loaded, kept, stored, held, λ j. rw memory (done.bytes j ∙ rw room refl))
