-- ===== src/Reader.antt =====
-- The reader of input files, merry/merry_nreader.c and merry/dev/merry_nreader.h, on a little-endian
-- host: its state, the header, the checks of the header and the table of entry addresses. A result
-- is `none` where the code returns RET_FAILURE; the messages are left out.
pub mod Load
pub mod Format
pub mod Header
pub mod Entries
pub mod Parts
pub mod Program
pub mod Loops
pub mod Release
mod Tests
use merry_v.Common.{
  ℕ, zero, suc, ◌+◌, ◌*◌, ◌/◌, ◌%◌, Bool, true, false, not, ◌&&◌, Option, none, some, List, [], ◌∷◌,
  ltb, ◌==◌, if◌then◌else◌, wrap, take, drop,
}
use merry_v.Block.Runs.{blit}
use merry_v.Memory.{MemPage}

-- `MerrySymbol`
pub record Symbol : Type 0 where
  pub address : ℕ
  pub index : ℕ

-- `msection_t`
pub data SectionType : Type 0 where
  data_section info symd other : SectionType

-- `MerrySection`
pub record Section : Type 0 where
  pub section_len : ℕ
  pub type : SectionType
  pub st_index : ℕ
  pub rim : Bool
  pub ras : Bool

-- `MerryReader` with its parts. `f` is what is left of the file. `instructions` and `data_table` (`data`) are the
-- bytes of the two tables of page pointers, and `heap` is the memory behind a pointer: a pointer that
-- was never set is one more address.
pub record Reader : Type 0 where
  pub de_flag : Bool
  pub ste_flag : Bool
  pub inst_section_len : ℕ
  pub instructions : ℕ → ℕ
  pub inst_page_count : ℕ
  pub eat : List ℕ
  pub eat_entry_count : ℕ
  pub eat_len : ℕ
  pub sst_len : ℕ
  pub sst_entry_count : ℕ
  pub sections : List Section
  pub symd_section_provided : Bool
  pub st_len : ℕ
  pub st_data : List ℕ
  pub data_table : ℕ → ℕ
  pub data_len : ℕ
  pub data_page_count : ℕ
  pub f : List ℕ
  pub flen : ℕ
  pub syms : ℕ → Symbol
  pub sym_count : ℕ
  pub heap : ℕ → MemPage

-- What the host decides: whether each malloc and realloc succeeds, what mmap returns for the pages
-- of instructions and of data (`none` for MAP_FAILED), and what malloc left in a block.
pub record Host : Type 0 where
  pub malloc_ok : Bool
  pub realloc_ok : Bool
  pub mmap_inst : ℕ → Option ℕ
  pub mmap_data : ℕ → Option ℕ
  pub left : ℕ → ℕ

-- _MERRY_MIN_INPFILE_LEN_
abbrev pub min_inpfile_len : ℕ
min_inpfile_len = 40

-- `merry_init_reader` for a file that opens, with `bytes` as its contents.
unfoldable pub init_reader : (ℕ → ℕ) → (ℕ → MemPage) → List ℕ → Reader
init_reader left heap bytes = record {
  de_flag = false;
  ste_flag = false;
  inst_section_len = 0;
  instructions = left;
  inst_page_count = 0;
  eat = [];
  eat_entry_count = 0;
  eat_len = 0;
  sst_len = 0;
  sst_entry_count = 0;
  sections = [];
  symd_section_provided = false;
  st_len = 0;
  st_data = [];
  data_table = left;
  data_len = 0;
  data_page_count = 0;
  f = bytes;
  flen = 0;
  syms = λ i. record { address = 0; index = 0 };
  sym_count = 0;
  heap = heap;
}

-- _MERRY_GET_LITTLE_ENDIAN_ shifts eight bytes in, the first one to the top: `n` bytes of `arr` from
-- `i` on behind what is there.
unfoldable pub shift_in : ℕ → (ℕ → ℕ) → ℕ → ℕ → ℕ
shift_in zero arr i var = var
shift_in (suc n) arr i var = shift_in n arr (i + 1) (wrap (var * 256) + arr i)

abbrev pub get_number : (ℕ → ℕ) → ℕ → ℕ
get_number arr i = shift_in 8 arr i 0

-- `merry_reader_is_file_fit_to_read`; `f` is at its start.
unfoldable pub is_file_fit_to_read : ℕ → Reader → Option Reader
is_file_fit_to_read len r = if ltb len min_inpfile_len then none else some (record r { flen = len })

-- The test of the first three bytes: it fails only if all three differ.
abbrev pub unknown_format : (ℕ → ℕ) → Bool
unknown_format header = not (header 0 == 77) && not (header 1 == 73) && not (header 2 == 78)

-- The flags and lengths of the header.
unfoldable pub parse_header : (ℕ → ℕ) → Reader → Reader
parse_header header r = record r {
  ste_flag = if header 7 == 1 then true else r.ste_flag;
  de_flag = if header 6 == 1 then true else r.de_flag;
  inst_section_len = get_number header 8;
  eat_len = get_number header 16;
  sst_len = get_number header 24;
  st_len = get_number header 32;
}

-- The sum of the lengths that is compared with the length of the file.
abbrev pub sections_len : Reader → ℕ
sections_len r = wrap (r.inst_section_len + r.eat_len + r.sst_len + r.st_len)

-- What `merry_reader_read_header` does once it has the bytes of the header.
unfoldable pub check_header : (ℕ → ℕ) → Reader → Option Reader
unfolding parse_header
check_header header r =
    let r' = parse_header header r in
    if unknown_format header then none else (if ltb r.flen (sections_len r') then none else some r')

-- `merry_reader_read_header`
unfoldable pub read_header : Host → Reader → Option Reader
unfolding check_header
read_header h r =
    check_header (blit h.left 0 (take min_inpfile_len r.f))
      (record r { f = drop min_inpfile_len r.f })

-- `merry_reader_validate_header_info`
unfoldable pub validate_header_info : Reader → Option Reader
validate_header_info r =
    if r.inst_section_len == 0
    then none
    else (if not (r.inst_section_len % 8 == 0)
        then none
        else (if not (r.sst_len % 16 == 0)
            then none
            else (if not (r.eat_len % 8 == 0)
                then none
                else some (record r {
                  ste_flag = if r.st_len == 0 && r.ste_flag then false else r.ste_flag;
                  de_flag = if r.sst_len == 0 && r.de_flag then false else r.de_flag;
                  data_len = if r.sst_len == 0 && r.de_flag then 0 else r.data_len;
                }))))

-- The entries that the loop of `merry_reader_read_eat` decodes from byte `j` on.
unfoldable pub eat_entries : (ℕ → ℕ) → ℕ → ℕ → List ℕ
eat_entries eat_conts zero j = []
eat_entries eat_conts (suc n) j = get_number eat_conts j ∷ eat_entries eat_conts n (j + 8)

-- `merry_reader_read_eat`. The result of fread is not looked at: the bytes that it does not deliver
-- stay what they were.
unfoldable pub read_eat : Host → Reader → Option Reader
unfolding eat_entries
read_eat h r =
    let num_of_entries = r.eat_len / 8 in
    if h.malloc_ok
    then (if num_of_entries == 0
        then some (record r { eat = 0 ∷ []; eat_entry_count = 1 })
        else some (record r {
          eat = eat_entries (blit h.left 0 (take r.eat_len r.f)) num_of_entries 0;
          eat_entry_count = num_of_entries;
          f = drop r.eat_len r.f;
        }))
    else none
