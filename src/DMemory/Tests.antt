-- ===== src/DMemory/Tests.antt =====
-- Concrete data memories of two pages, and the theorems of the data memory at them.
use merry_v.Common.{
  ℕ, ◌+◌, ◌-◌, ◌*◌, ◌%◌, ◌≡◌, inr, refl, true, false, none, some, List, [], ◌∷◌, arith,
  if◌then◌else◌, ◌==◌, length, take,
}
use merry_v.Block.Endian.{load}
use merry_v.Block.Runs.{slice, blit}
use merry_v.DMemory.{
  DMemory, Page, zero_page, page_at, page_size, add_new_page, mem_invalid_access, fault,
}
use merry_v.DMemory.Access.{Width, byte, word, dword, qword, read, write, read_dword_atm}
use merry_v.DMemory.Bytes.{get_bytes, write_bytes}
use merry_v.DMemory.Inv.{IsValid, AllBytes, write_bytes-IsValid}
use merry_v.DMemory.Flat.{flat, address_limit}
use merry_v.DMemory.Build.{add_new_page-pages}
use merry_v.DMemory.Linear.{bytes, linear_read, Writes, read-linear, write-Writes}
use merry_v.DMemory.Words.{
  read-write, read-write_apart, read-alias, read_qword-dwords, read_dword_atm-blind,
}
use merry_v.DMemory.Copies.{run_fits, get_bytes-linear}
use merry_v.DMemory.CopyIn.{get_bytes-write_bytes, write_bytes-fits, write_bytes-overrun}

abbrev other_page : Page
other_page i = i % 256

abbrev mem : DMemory
mem = record { pages = zero_page ∷ zero_page ∷ []; number_of_pages = 2; error = 0 }

abbrev other_mem : DMemory
other_mem = record { pages = other_page ∷ zero_page ∷ []; number_of_pages = 2; error = 0 }

abbrev three_bytes : List ℕ
three_bytes = 1 ∷ 2 ∷ 255 ∷ []

abbrev host_words : ℕ → ℕ → ℕ
host_words page offset = page + offset

mem-IsValid : IsValid mem
mem-IsValid = record {
  counted = refl;
  few = omega arith;
  bytes = ((λ i. omega arith), ((λ i. omega arith), tt));
}

three_bytes-AllBytes : AllBytes three_bytes
three_bytes-AllBytes = (omega arith, (omega arith, (omega arith, tt)))

read-write_example : read word (write word mem 9 258).1 9 ≡ (some 258, (write word mem 9 258).1)
read-write_example = read-write word 9 258 mem-IsValid (omega arith) (omega arith) refl

read-write_apart_example : (read byte (write word mem 9 258).1 11).0 ≡ (read byte mem 11).0
read-write_apart_example =
    read-write_apart word byte 9 11 258 mem-IsValid (omega arith) (omega arith) (omega arith) refl
      (inr (omega arith))

read-linear_example : read qword mem 1048570 ≡ linear_read (bytes qword) mem 1048570
read-linear_example = read-linear qword mem 1048570 (omega arith)

write-Writes_example : Writes (bytes dword) mem 4 70000 (write dword mem 4 70000)
write-Writes_example = write-Writes dword 4 70000 mem-IsValid (omega arith) (omega arith)

read_qword-dwords_example : read qword mem 0 ≡ (some (0 + 4294967296 * 0), mem)
unfolding read merry_v.DMemory.Access.read_wide load
read_qword-dwords_example = read_qword-dwords mem 0 0 0 (omega arith) refl refl refl

read-alias_example : read byte mem (5 + address_limit) ≡ read byte mem 5
read-alias_example = read-alias byte mem 5

read_dword_atm-blind_example :
    (read_dword_atm host_words other_mem 8).0 ≡ (read_dword_atm host_words mem 8).0
read_dword_atm-blind_example = read_dword_atm-blind host_words mem other_mem 8 refl

get_bytes-linear_example : get_bytes true mem 1048575 2 ≡ (
    if run_fits mem 1048575 2 then (some (slice (flat mem) 1048575 2), mem) else (none, fault mem))
get_bytes-linear_example = get_bytes-linear 1048575 2 mem-IsValid (omega arith)

get_bytes-write_bytes_example :
    let m' = (write_bytes mem 1048575 (some three_bytes)).1 in
    get_bytes true m' 1048575 (length three_bytes) ≡ (some three_bytes, m')
get_bytes-write_bytes_example =
    get_bytes-write_bytes 1048575 three_bytes mem-IsValid three_bytes-AllBytes (omega arith) refl

write_bytes-fits_example :
    let (done, m') = write_bytes mem 1048575 (some three_bytes) in
    (done ≡ true)
    × ((j : ℕ) → flat m' j ≡ blit (flat mem) 1048575 three_bytes j)
    × (m'.number_of_pages ≡ mem.number_of_pages)
    × (m'.error ≡ mem.error)
write_bytes-fits_example =
    write_bytes-fits 1048575 three_bytes mem-IsValid three_bytes-AllBytes (omega arith) refl

write_bytes-overrun_example :
    let (done, m') = write_bytes mem 2097150 (some three_bytes) in
    (done ≡ false)
    × ((j : ℕ)
        → flat m' j
          ≡ blit (flat mem) 2097150 (take (page_size - 2097150 % page_size) three_bytes) j)
    × (m'.error ≡ mem_invalid_access)
write_bytes-overrun_example =
    write_bytes-overrun 2097150 three_bytes mem-IsValid (omega arith) (omega arith) refl

write_bytes-IsValid_example : IsValid (write_bytes mem 1048575 (some three_bytes)).1
write_bytes-IsValid_example =
    write_bytes-IsValid 1048575 three_bytes mem-IsValid three_bytes-AllBytes

add_new_page-pages_example :
    let m' = (add_new_page true true other_page mem).1 in
    (m'.number_of_pages ≡ mem.number_of_pages + 1)
    × (page_at m' 2 ≡ (if 2 == mem.number_of_pages then other_page else page_at mem 2))
add_new_page-pages_example = add_new_page-pages other_page 2 mem-IsValid (omega arith)
