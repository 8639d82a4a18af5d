-- ===== src/Memory.antt =====
-- The instruction memory, merry/merry_memory.c and merry/dev/merry_memory.h: an array of pages of
-- 131072 qwords, addressed linearly by qwords. A read returns `none` where the code returns
-- RET_FAILURE and leaves `*_store_in` alone.
pub mod Laws
pub mod Build
mod Tests
use merry_v.Common.{
  ℕ, zero, suc, ◌+◌, ◌/◌, ◌%◌, Bool, true, false, Option, none, some, List, [], ◌∷◌, ◌++◌, set,
  get_or, if◌then◌else◌, leb, update,
}

-- _MERRY_MEMORY_QS_PER_PAGE_
abbrev pub qs_per_page : ℕ
qs_per_page = 131072

abbrev pub uint_mod : ℕ
uint_mod = 4294967296

-- The qwords of a page, by offset.
abbrev pub MemPage : Type 0
MemPage = ℕ → ℕ

abbrev pub zero_page : MemPage
zero_page i = 0

abbrev pub error_none : ℕ
error_none = 0

abbrev pub mem_invalid_access : ℕ
mem_invalid_access = 52

pub record Memory : Type 0 where
  pub pages : List MemPage
  pub number_of_pages : ℕ
  pub error : ℕ

pub record Address : Type 0 where
  pub page : ℕ
  pub offset : ℕ

-- Both fields are `unsigned int`.
abbrev pub deduce_address : ℕ → Address
deduce_address address = record {
  page = address / qs_per_page % uint_mod;
  offset = address % qs_per_page % uint_mod;
}

-- `memory->pages[page]->address_space`; every access is behind the test against `number_of_pages`.
abbrev pub page_at : Memory → ℕ → MemPage
page_at m page = get_or m.pages page zero_page

abbrev pub fault : Memory → Memory
fault m = record m { error = mem_invalid_access }

unfoldable pub read : Memory → ℕ → Option ℕ × Memory
read m address =
    let addr = deduce_address address in
    if leb m.number_of_pages addr.page
    then (none, fault m)
    else (some (page_at m addr.page addr.offset), m)

unfoldable pub write : Memory → ℕ → ℕ → Bool × Memory
write m address to_write =
    let addr = deduce_address address in
    if leb m.number_of_pages addr.page then (false, fault m) else (
      true,
      record m {
        pages = set m.pages addr.page (update (page_at m addr.page) addr.offset to_write);
      },
    )

-- The pointer returned is the page and the offset in it, `none` for NULL.
unfoldable pub get_address : Memory → ℕ → Option Address × Memory
get_address m address =
    let addr = deduce_address address in
    if leb m.number_of_pages addr.page then (none, fault m) else (some addr, m)

-- `malloc_ok` says whether malloc returns memory, `fresh` is what mmap maps.
unfoldable pub allocate_new_mempage : Bool → MemPage → Option MemPage
allocate_new_mempage malloc_ok fresh = if malloc_ok then some fresh else none

unfoldable pub allocate_new_mempage_provided : Bool → MemPage → Option MemPage
allocate_new_mempage_provided malloc_ok page = if malloc_ok then some page else none

-- The loop of `merry_memory_init` and `merry_memory_init_provided` from page `i` on, `n` rounds
-- before its end; a failure frees the memory and returns NULL.
unfoldable pub init_pages : (ℕ → Option MemPage) → ℕ → ℕ → Memory → Option Memory
init_pages new_page zero i m = some m
init_pages new_page (suc n) i m = elim (new_page i) [
  | none ↦ none
  | some p ↦
      init_pages new_page n (i + 1)
        (record m { pages = m.pages ++ (p ∷ []); number_of_pages = m.number_of_pages + 1 })
]

abbrev pub no_pages : Memory
no_pages = record { pages = []; number_of_pages = 0; error = error_none }

-- The first two flags are the outcomes of malloc for the struct and for the array of pages, the
-- functions those of malloc and mmap for page `i`.
unfoldable pub init : Bool → Bool → (ℕ → Bool) → (ℕ → MemPage) → ℕ → Option Memory
unfolding init_pages allocate_new_mempage
init struct_ok array_ok page_ok fresh num_of_pages =
    if struct_ok
    then (if array_ok
        then init_pages (λ i. allocate_new_mempage (page_ok i) (fresh i)) num_of_pages 0 no_pages
        else none)
    else none

unfoldable pub init_provided : Bool → Bool → (ℕ → Bool) → (ℕ → MemPage) → ℕ → Option Memory
unfolding init_pages allocate_new_mempage_provided
init_provided struct_ok array_ok page_ok mapped_pages num_of_pages =
    if struct_ok
    then (if array_ok
        then init_pages (λ i. allocate_new_mempage_provided (page_ok i) (mapped_pages i))
            num_of_pages 0 no_pages
        else none)
    else none
