-- ===== src/DMemory.antt =====
-- The data memory, merry/merry_dmemory.c and merry/dev/merry_dmemory.h: an array of pages of 1 MB,
-- addressed linearly. Here its state, its construction and its growth. An operation that sets
-- `memory->error` returns the new memory beside its result; a read returns `none` where the code
-- returns RET_FAILURE and leaves `*_store_in` alone.
pub mod Access
pub mod Address
pub mod Bytes
pub mod Inv
pub mod Build
pub mod Flat
pub mod Linear
pub mod Words
pub mod Copies
pub mod CopyIn
mod Tests
use merry_v.Common.{
  ℕ, zero, suc, ◌+◌, ◌/◌, ◌%◌, Bool, true, false, Option, none, some, List, [], ◌∷◌, ◌++◌, set,
  get_or, if◌then◌else◌,
}

-- _MERRY_MEMORY_ADDRESSES_PER_PAGE_
abbrev pub page_size : ℕ
page_size = 1048576

-- 2 ^ 32, at which an `unsigned int` wraps
abbrev pub uint_mod : ℕ
uint_mod = 4294967296

-- The bytes of a page, by offset.
abbrev pub Page : Type 0
Page = ℕ → ℕ

abbrev pub zero_page : Page
zero_page i = 0

-- MERRY_ERROR_NONE and MERRY_MEM_INVALID_ACCESS
abbrev pub error_none : ℕ
error_none = 0

abbrev pub mem_invalid_access : ℕ
mem_invalid_access = 52

pub record DMemory : Type 0 where
  pub pages : List Page
  pub number_of_pages : ℕ
  pub error : ℕ

pub record DAddress : Type 0 where
  pub page : ℕ
  pub offset : ℕ

-- Both fields are `unsigned int`.
abbrev pub deduce_address : ℕ → DAddress
deduce_address address = record {
  page = address / page_size % uint_mod;
  offset = address % page_size % uint_mod;
}

-- `memory->pages[page]->address_space`; every access is behind the test against `number_of_pages`.
abbrev pub page_at : DMemory → ℕ → Page
page_at m page = get_or m.pages page zero_page

abbrev pub set_page : DMemory → ℕ → Page → DMemory
set_page m page f = record m { pages = set m.pages page f }

abbrev pub fault : DMemory → DMemory
fault m = record m { error = mem_invalid_access }

-- `malloc_ok` says whether malloc returns memory, `fresh` is what mmap maps. mmap is taken to succeed:
-- its failure is MAP_FAILED, which the test for NULL does not find, so the page would be there, with an
-- address at which every access faults.
unfoldable pub allocate_new_mempage : Bool → Page → Option Page
allocate_new_mempage malloc_ok fresh = if malloc_ok then some fresh else none

unfoldable pub allocate_new_mempage_provided : Bool → Page → Option Page
allocate_new_mempage_provided malloc_ok page = if malloc_ok then some page else none

-- What the host gives in a construction: malloc of the struct, malloc of the array of pages, and
-- malloc and mmap for page `i`.
pub record Host : Type 0 where
  pub struct_ok : Bool
  pub array_ok : Bool
  pub page_ok : ℕ → Bool
  pub fresh : ℕ → Page

-- The loop of `merry_dmemory_init` and `merry_dmemory_init_provided` from page `i` on, `n` rounds
-- before its end; a failure frees the memory and returns NULL.
unfoldable pub init_pages : (ℕ → Option Page) → ℕ → ℕ → DMemory → Option DMemory
init_pages new_page zero i m = some m
init_pages new_page (suc n) i m = elim (new_page i) [
  | none ↦ none
  | some p ↦
      init_pages new_page n (i + 1)
        (record m { pages = m.pages ++ (p ∷ []); number_of_pages = m.number_of_pages + 1 })
]

abbrev pub no_pages : DMemory
no_pages = record { pages = []; number_of_pages = 0; error = error_none }

unfoldable pub init : Host → ℕ → Option DMemory
unfolding init_pages allocate_new_mempage
init h num_of_pages =
    if h.struct_ok
    then (if h.array_ok
        then init_pages (λ i. allocate_new_mempage (h.page_ok i) (h.fresh i)) num_of_pages 0
            no_pages
        else none)
    else none

unfoldable pub init_provided : Host → (ℕ → Page) → ℕ → Option DMemory
unfolding init_pages allocate_new_mempage_provided
init_provided h mapped_pages num_of_pages =
    if h.struct_ok
    then (if h.array_ok
        then init_pages (λ i. allocate_new_mempage_provided (h.page_ok i) (mapped_pages i))
            num_of_pages 0 no_pages
        else none)
    else none

-- `merry_dmemory_add_new_page`; the flags are the outcomes of realloc and of malloc. After a failure
-- `pages[number_of_pages]` may be NULL, behind the last page that is counted.
unfoldable pub add_new_page : Bool → Bool → Page → DMemory → Bool × DMemory
unfolding allocate_new_mempage
add_new_page realloc_ok malloc_ok fresh m =
    if realloc_ok
    then elim (allocate_new_mempage malloc_ok fresh) [
      | none ↦ (false, m)
      | some p ↦
          (true, record m { pages = m.pages ++ (p ∷ []); number_of_pages = m.number_of_pages + 1 })
    ]
    else (false, m)
