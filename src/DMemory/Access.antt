-- ===== src/DMemory/Access.antt =====
-- The reads and writes of one, two, four and eight bytes of merry/merry_dmemory.c, plain and atomic.
-- A core's access is one step, so an atomic access differs from the plain one only where its code
-- does. The host is little-endian.
use merry_v.Common.{
  ℕ, suc, ◌+◌, ◌%◌, Bool, true, false, Option, none, some, leb, if◌then◌else◌, update,
}
use merry_v.Block.Endian.{load, store}
use merry_v.DMemory.{DMemory, page_size, deduce_address, page_at, set_page, fault}

unfoldable pub read_byte : DMemory → ℕ → Option ℕ × DMemory
read_byte m address =
    let addr = deduce_address address in
    if leb m.number_of_pages addr.page
    then (none, fault m)
    else (some (page_at m addr.page addr.offset), m)

unfoldable pub read_byte_atm : DMemory → ℕ → Option ℕ × DMemory
read_byte_atm m address =
    let addr = deduce_address address in
    if leb m.number_of_pages addr.page
    then (none, fault m)
    else (some (page_at m addr.page addr.offset), m)

-- The assignment to an `mbyte_t` keeps the low byte.
unfoldable pub write_byte : DMemory → ℕ → ℕ → Bool × DMemory
write_byte m address to_write =
    let addr = deduce_address address in
    if leb m.number_of_pages addr.page
    then (false, fault m)
    else (true, set_page m addr.page (update (page_at m addr.page) addr.offset (to_write % 256)))

unfoldable pub write_byte_atm : DMemory → ℕ → ℕ → Bool × DMemory
write_byte_atm m address to_write =
    let addr = deduce_address address in
    if leb m.number_of_pages addr.page
    then (false, fault m)
    else (true, set_page m addr.page (update (page_at m addr.page) addr.offset (to_write % 256)))

-- The body that the wider reads share: `last` is the distance of the last byte, 1, 3 or 7.
unfoldable pub read_wide : ℕ → DMemory → ℕ → Option ℕ × DMemory
read_wide last m address =
    let addr = deduce_address address in
    if leb m.number_of_pages addr.page
    then (none, fault m)
    else (if leb page_size (addr.offset + last)
        then (none, fault m)
        else (some (load (suc last) (page_at m addr.page) addr.offset), m))

unfoldable pub write_wide : ℕ → DMemory → ℕ → ℕ → Bool × DMemory
write_wide last m address to_write =
    let addr = deduce_address address in
    if leb m.number_of_pages addr.page
    then (false, fault m)
    else (if leb page_size (addr.offset + last) then (false, fault m) else (
      true,
      set_page m addr.page (store (suc last) (page_at m addr.page) addr.offset to_write),
    ))

unfoldable pub read_word : DMemory → ℕ → Option ℕ × DMemory
read_word m address = read_wide 1 m address

unfoldable pub read_word_atm : DMemory → ℕ → Option ℕ × DMemory
read_word_atm m address = read_wide 1 m address

unfoldable pub write_word : DMemory → ℕ → ℕ → Bool × DMemory
write_word m address to_write = write_wide 1 m address (to_write % 65536)

unfoldable pub write_word_atm : DMemory → ℕ → ℕ → Bool × DMemory
write_word_atm m address to_write = write_wide 1 m address (to_write % 65536)

unfoldable pub read_dword : DMemory → ℕ → Option ℕ × DMemory
read_dword m address = read_wide 3 m address

-- `atomic_load(&memory->pages[addr.page]->address_space + addr.offset)` does not read the page: it
-- reads the pointer-sized word of the host that lies `offset` words behind the field that holds the
-- page's pointer. `host_word page offset` is that word.
unfoldable pub read_dword_atm : (ℕ → ℕ → ℕ) → DMemory → ℕ → Option ℕ × DMemory
read_dword_atm host_word m address =
    let addr = deduce_address address in
    if leb m.number_of_pages addr.page
    then (none, fault m)
    else (if leb page_size (addr.offset + 3)
        then (none, fault m)
        else (some (host_word addr.page addr.offset), m))

unfoldable pub write_dword : DMemory → ℕ → ℕ → Bool × DMemory
write_dword m address to_write = write_wide 3 m address (to_write % 4294967296)

unfoldable pub write_dword_atm : DMemory → ℕ → ℕ → Bool × DMemory
write_dword_atm m address to_write = write_wide 3 m address (to_write % 4294967296)

unfoldable pub read_qword : DMemory → ℕ → Option ℕ × DMemory
read_qword m address = read_wide 7 m address

unfoldable pub read_qword_atm : DMemory → ℕ → Option ℕ × DMemory
read_qword_atm m address = read_wide 7 m address

-- The value is an `mqword_t`, below 2 ^ 64.
unfoldable pub write_qword : DMemory → ℕ → ℕ → Bool × DMemory
write_qword m address to_write = write_wide 7 m address to_write

unfoldable pub write_qword_atm : DMemory → ℕ → ℕ → Bool × DMemory
write_qword_atm m address to_write = write_wide 7 m address to_write

-- The reads of four widths that `merry_runCore` hands on as function pointers (`mem_read`).
pub data Width : Type 0 where
  byte word dword qword : Width

unfoldable pub read : Width → DMemory → ℕ → Option ℕ × DMemory
unfolding read_byte read_word read_dword read_qword
read byte = read_byte
read word = read_word
read dword = read_dword
read qword = read_qword

-- The plain writes of the same widths.
unfoldable pub write : Width → DMemory → ℕ → ℕ → Bool × DMemory
unfolding write_byte write_word write_dword write_qword
write byte = write_byte
write word = write_word
write dword = write_dword
write qword = write_qword
