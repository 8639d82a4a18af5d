-- ===== src/DMemory/Linear.antt =====
-- The reads and writes of merry/merry_dmemory.c against a linear memory of bytes: which accesses are
-- accepted, what they read and what they change.
use merry_v.Common.{
  ℕ, suc, ◌+◌, ◌/◌, ◌%◌, ◌≤◌, ◌<◌, ◌≡◌, inl, inr, refl, ap, ◌∙◌, Bool, true, false, Option, none,
  some, arith, leb, ltb, ◌&&◌, if◌then◌else◌, Bool-cases,
}
use merry_v.Block.Endian.{load, store, bound}
use merry_v.DMemory.{DMemory, page_size, uint_mod, fault, mem_invalid_access}
use merry_v.DMemory.Access.{
  Width, byte, word, dword, qword, read, write, read_byte, write_byte, read_wide, write_wide,
}
use merry_v.DMemory.Inv.{IsValid}
use merry_v.DMemory.Flat.{flat, size, address_limit, flat-store, flat-load}

-- `width` bytes at `a` exist and lie on one page.
abbrev pub fits : ℕ → DMemory → ℕ → Bool
fits width m a = ltb a (size m) && leb (a % page_size + width) page_size

abbrev pub linear_read : ℕ → DMemory → ℕ → Option ℕ × DMemory
linear_read width m a =
    if fits width m a then (some (load width (flat m) a), m) else (none, fault m)

-- An accepted write succeeds, changes the `width` bytes and nothing else; any other fails and
-- changes the error alone.
pub record Writes (width : ℕ) (m : DMemory) (a v : ℕ) (out : Bool × DMemory) : Type 0 where
  pub status : out.0 ≡ fits width m a
  pub bytes :
      (j : ℕ) → flat out.1 j ≡ (if fits width m a then store width (flat m) a v j else flat m j)
  pub pages : out.1.number_of_pages ≡ m.number_of_pages
  pub error : out.1.error ≡ (if fits width m a then m.error else mem_invalid_access)

-- The tests of the code, on an access that fits.
module _ (last : ℕ) (m : DMemory) (a : ℕ) (lt : a < address_limit)
    (ok : fits (suc last) m a ≡ true) where
  page_ok : leb m.number_of_pages (a / page_size % uint_mod) ≡ false
  page_ok = ground arith

  offset_ok : leb page_size (a % page_size % uint_mod + last) ≡ false
  offset_ok = ground arith

  inside : (a / page_size % uint_mod < m.number_of_pages) × (a % page_size + suc last ≤ page_size)
  inside = ground arith

read_wide-linear :
    (last : ℕ) (m : DMemory) (a : ℕ)
    → a < address_limit
    → read_wide last m a ≡ linear_read (suc last) m a
unfolding read_wide
read_wide-linear last m a lt = elim (Bool-cases (fits (suc last) m a)) [
  | inl ok ↦
      rw (ok, page_ok last m a lt ok, offset_ok last m a lt ok)
        (ap (λ x. (some x, m))
          (flat-load m (suc last) _ _ a (omega arith) (omega (arith, inside last m a lt ok))))
  | inr bad ↦ ground arith
]

refused :
    (last : ℕ) (m : DMemory) (a v : ℕ)
    → a < address_limit
    → fits (suc last) m a ≡ false
    → write_wide last m a v ≡ (false, fault m)
unfolding write_wide
refused last m a v lt bad = ground arith

write_wide-Writes :
    (last : ℕ) {m : DMemory} (a v : ℕ)
    → IsValid m
    → a < address_limit
    → Writes (suc last) m a v (write_wide last m a v)
unfolding write_wide
write_wide-Writes last {m} a v valid lt = elim (Bool-cases (fits (suc last) m a)) [
  | inl ok ↦ record {
    status = rw (page_ok last m a lt ok, offset_ok last m a lt ok, ok) refl;
    bytes = λ j.
        rw (page_ok last m a lt ok, offset_ok last m a lt ok, ok)
          (flat-store (suc last) _ _ a v j valid (inside last m a lt ok).0 (omega arith)
            (omega (arith, inside last m a lt ok)));
    pages = rw (page_ok last m a lt ok, offset_ok last m a lt ok) refl;
    error = rw (page_ok last m a lt ok, offset_ok last m a lt ok, ok) refl;
  }
  | inr bad ↦ record {
    status = rw (refused last m a v lt bad, bad) refl;
    bytes = λ j. rw (refused last m a v lt bad, bad) refl;
    pages = rw (refused last m a v lt bad) refl;
    error = rw (refused last m a v lt bad, bad) refl;
  }
]

-- The byte accesses make no test of the offset, which would always pass.
read_byte-wide : (m : DMemory) (a : ℕ) → read_byte m a ≡ read_wide 0 m a
unfolding read_byte read_wide load
read_byte-wide m a = ground arith

write_byte-wide : (m : DMemory) (a v : ℕ) → write_byte m a v ≡ write_wide 0 m a v
unfolding write_byte write_wide store
write_byte-wide m a v = ground arith

-- The number of bytes of an access.
abbrev pub bytes : Width → ℕ
bytes byte = 1
bytes word = 2
bytes dword = 4
bytes qword = 8

-- Below 2 ^ 52 a read of each width returns the little-endian number at the linear address if
-- its bytes exist on one page; otherwise it fails, sets the error and changes nothing else.
pub read-linear :
    (w : Width) (m : DMemory) (a : ℕ) → a < address_limit → read w m a ≡ linear_read (bytes w) m a
unfolding read
read-linear byte m a lt = read_byte-wide m a ∙ read_wide-linear 0 m a lt
read-linear word m a lt = read_wide-linear 1 m a lt
read-linear dword m a lt = read_wide-linear 3 m a lt
read-linear qword m a lt = read_wide-linear 7 m a lt

-- In a valid memory, a write below 2 ^ 52 of a value of its width puts the little-endian number
-- into the linear memory if its bytes exist on one page, and otherwise fails, sets the error
-- and changes no byte.
pub write-Writes :
    (w : Width) {m : DMemory} (a v : ℕ)
    → IsValid m
    → a < address_limit
    → v < bound (bytes w)
    → Writes (bytes w) m a v (write w m a v)
unfolding write
write-Writes byte {m} a v valid lt small =
    rw (write_byte-wide m a v) (write_wide-Writes 0 a v valid lt)
write-Writes word {m} a v valid lt small =
    let e : v % 65536 ≡ v = omega arith in rw e (write_wide-Writes 1 a v valid lt)
write-Writes dword {m} a v valid lt small =
    let e : v % 4294967296 ≡ v = omega arith in rw e (write_wide-Writes 3 a v valid lt)
write-Writes qword {m} a v valid lt small = write_wide-Writes 7 a v valid lt
