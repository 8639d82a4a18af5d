-- ===== src/DMemory/Address.antt =====
-- The functions of merry/merry_dmemory.c that turn an address of the machine into a pointer of the
-- host: the page and the offset in it, or `none` for NULL. `offset + bound * width` is an `msize_t`
-- and wraps at 2 ^ 64.
use merry_v.Common.{ℕ, ◌+◌, ◌*◌, Option, none, some, leb, if◌then◌else◌, wrap}
use merry_v.DMemory.{DMemory, DAddress, page_size, deduce_address, fault}

unfoldable pub get_byte_address : DMemory → ℕ → Option DAddress × DMemory
get_byte_address m address =
    let addr = deduce_address address in
    if leb m.number_of_pages addr.page then (none, fault m) else (some addr, m)

unfoldable pub get_byte_address_bounds : DMemory → ℕ → ℕ → Option DAddress × DMemory
get_byte_address_bounds m address bound =
    let addr = deduce_address address in
    if leb m.number_of_pages addr.page
    then (none, fault m)
    else (if leb page_size (wrap (addr.offset + bound)) then (none, fault m) else (some addr, m))

unfoldable pub get_word_address : DMemory → ℕ → Option DAddress × DMemory
get_word_address m address =
    let addr = deduce_address address in
    if leb m.number_of_pages addr.page then (none, fault m) else (some addr, m)

unfoldable pub get_word_address_bounds : DMemory → ℕ → ℕ → Option DAddress × DMemory
get_word_address_bounds m address bound =
    let addr = deduce_address address in
    if leb m.number_of_pages addr.page
    then (none, fault m)
    else (if leb page_size (wrap (addr.offset + bound * 2))
        then (none, fault m)
        else (some addr, m))

unfoldable pub get_dword_address : DMemory → ℕ → Option DAddress × DMemory
get_dword_address m address =
    let addr = deduce_address address in
    if leb m.number_of_pages addr.page then (none, fault m) else (some addr, m)

unfoldable pub get_dword_address_bounds : DMemory → ℕ → ℕ → Option DAddress × DMemory
get_dword_address_bounds m address bound =
    let addr = deduce_address address in
    if leb m.number_of_pages addr.page
    then (none, fault m)
    else (if leb page_size (wrap (addr.offset + bound * 4))
        then (none, fault m)
        else (some addr, m))

unfoldable pub get_qword_address : DMemory → ℕ → Option DAddress × DMemory
get_qword_address m address =
    let addr = deduce_address address in
    if leb m.number_of_pages addr.page then (none, fault m) else (some addr, m)

unfoldable pub get_qword_address_bounds : DMemory → ℕ → ℕ → Option DAddress × DMemory
get_qword_address_bounds m address bound =
    let addr = deduce_address address in
    if leb m.number_of_pages addr.page
    then (none, fault m)
    else (if leb page_size (wrap (addr.offset + bound * 8))
        then (none, fault m)
        else (some addr, m))
