-- ===== src/DMemory/Bytes.antt =====
-- The copies of merry/merry_dmemory.c that may run over several pages. The loop over whole pages and
-- the copy of what remains behind it are one recursion on the pages left.
use merry_v.Common.{
  ℕ, zero, suc, ◌+◌, ◌-◌, ◌/◌, ◌%◌, Bool, true, false, Option, none, some, List, [], ◌++◌, ltb, leb,
  if◌then◌else◌, length, take, drop,
}
use merry_v.Block.Runs.{slice, blit}
use merry_v.DMemory.{DMemory, page_size, uint_mod, deduce_address, page_at, set_page, fault}

-- `(addr.page + no_of_pages + (remaining > 0 ? 1 : 0)) >= number_of_pages`
unfoldable pub runs_out : DMemory → ℕ → ℕ → Bool
runs_out m page length =
    leb m.number_of_pages
      (page + length / page_size + (if ltb 0 (length % page_size) then 1 else 0))

-- From page `page` on, `no_of_pages` whole pages and then the first `remaining` bytes of the next.
unfoldable pub read_pages : DMemory → ℕ → ℕ → ℕ → List ℕ
read_pages m page zero remaining =
    if ltb 0 remaining then slice (page_at m page) 0 remaining else []
read_pages m page (suc n) remaining =
    slice (page_at m page) 0 page_size ++ read_pages m ((page + 1) % uint_mod) n remaining

-- `merry_dmemory_get_bytes_maybe_over_multiple_pages`; the flag is the outcome of malloc. The bytes
-- returned are followed by a NUL.
unfoldable pub get_bytes : Bool → DMemory → ℕ → ℕ → Option (List ℕ) × DMemory
unfolding runs_out read_pages
get_bytes malloc_ok m address length =
    let addr = deduce_address address in
    let dist_from_end = page_size - addr.offset in
    let left = length - dist_from_end in
    if malloc_ok
    then (if leb m.number_of_pages addr.page
        then (none, fault m)
        else (if ltb length dist_from_end
            then (some (slice (page_at m addr.page) addr.offset length), m)
            else (if runs_out m addr.page left then (none, fault m) else (
              some (
                  slice (page_at m addr.page) addr.offset dist_from_end
                  ++ read_pages m ((addr.page + 1) % uint_mod) (left / page_size)
                      (left % page_size)),
              m,
            ))))
    else (none, m)

unfoldable pub write_pages : DMemory → ℕ → ℕ → List ℕ → DMemory
write_pages m page zero rest =
    if ltb 0 (length rest) then set_page m page (blit (page_at m page) 0 rest) else m
write_pages m page (suc n) rest =
    write_pages (set_page m page (blit (page_at m page) 0 (take page_size rest)))
      ((page + 1) % uint_mod) n (drop page_size rest)

-- `merry_dmemory_write_bytes_maybe_over_multiple_pages`: `none` is a NULL array, and the array's
-- length is the length argument. The part in the first page is written before the rest is tested.
unfoldable pub write_bytes : DMemory → ℕ → Option (List ℕ) → Bool × DMemory
unfolding runs_out write_pages
write_bytes m address none = (true, m)
write_bytes m address (some array) =
    let addr = deduce_address address in
    let dist_from_end = page_size - addr.offset in
    let left = length array - dist_from_end in
    let first =
      set_page m addr.page (blit (page_at m addr.page) addr.offset (take dist_from_end array)) in
    if leb m.number_of_pages addr.page
    then (false, fault m)
    else (if ltb (length array) dist_from_end
        then (true, set_page m addr.page (blit (page_at m addr.page) addr.offset array))
        else (if runs_out m addr.page left then (false, fault first) else (
          true,
          write_pages first ((addr.page + 1) % uint_mod) (left / page_size)
              (drop dist_from_end array),
        )))
