-- ===== src/Os/File.antt =====
-- The operations on files of merry/abs/merry_fio.c, on Linux.
use merry_v.Common.{
  ℕ, zero, suc, ◌+◌, ◌-◌, ◌%◌, Option, none, some, List, [], ◌∷◌, ◌++◌, ◌==◌, if◌then◌else◌,
  word_max, length,
}
use merry_v.Block.Runs.{blit}
use merry_v.DMemory.{DMemory, DAddress, page_at, set_page, page_size}
use merry_v.Os.{
  Os, Host, OpenMode, read_only, write_only, append, truncate, read_write, close_file, write_file,
  seek_file, ret_success, ret_failure,
}

-- The characters of a string in a page from `offset` on, before the NUL. What is behind the page is
-- not shown.
unfoldable pub string_from : ℕ → (ℕ → ℕ) → ℕ → List ℕ
string_from zero f offset = []
string_from (suc n) f offset =
    let rest = string_from n f (offset + 1) in if f offset == 0 then [] else f offset ∷ rest

abbrev pub c_string : DMemory → DAddress → List ℕ
c_string m a = string_from (page_size - a.offset) (page_at m a.page) a.offset

-- `*_fd`, passed as an `int`.
abbrev pub to_int : ℕ → ℕ
to_int handle = handle % 4294967296

-- The mode that a number stands for.
unfoldable pub open_mode : ℕ → Option OpenMode
open_mode mode =
    if mode == 2
    then some append
    else (if mode == 0
        then some read_only
        else (if mode == 4
            then some read_write
            else (if mode == 3
                then some truncate
                else (if mode == 1 then some write_only else none))))

-- `merry_open_new_file`: the descriptor, or `none` for RET_FAILURE.
unfoldable pub open_new_file : Host → Option (List ℕ) → ℕ → Option ℕ
unfolding open_mode
open_new_file h filepath mode = elim filepath [
  | none ↦ none
  | some path ↦ elim (open_mode mode) [ none ↦ none | some m ↦ h.open_file path m ]
]

-- `merry_close_file`
unfoldable pub close_open_file : ℕ → Os → Os
close_open_file handle os = record os { calls = os.calls ++ (close_file (to_int handle) ∷ []) }

-- `merry_read_from_file` into the memory at `store_in`; bytes behind the end of the page are shown
-- as if it went on.
unfoldable pub read_from_file : Host → ℕ → Option DAddress → ℕ → Os → ℕ × Os
read_from_file h handle store_in number_of_bytes os =
    elim (h.read (to_int handle) store_in number_of_bytes) [
      | none ↦ (word_max, os)
      | some bytes ↦ (
        length bytes,
        elim store_in [
          | none ↦ os
          | some a ↦ record os {
            data_mem =
                set_page os.data_mem a.page (blit (page_at os.data_mem a.page) a.offset bytes);
          }
        ],
      )
    ]

-- `merry_write_to_file`
unfoldable pub write_to_file : Host → ℕ → Option DAddress → ℕ → Os → ℕ × Os
write_to_file h handle src num_of_bytes os = (
  elim (h.write (to_int handle) src num_of_bytes) [ none ↦ word_max | some n ↦ n ],
  record os { calls = os.calls ++ (write_file (to_int handle) src num_of_bytes ∷ []) },
)

-- `merry_seek_in_file`
unfoldable pub seek_in_file : Host → ℕ → ℕ → ℕ → Os → ℕ × Os
seek_in_file h handle off relative_pos os = (
  if h.seek_ok (to_int handle) off relative_pos then ret_success else ret_failure,
  record os { calls = os.calls ++ (seek_file (to_int handle) off relative_pos ∷ []) },
)
