-- ===== src/Reader/Load.antt =====
-- The rest of merry/merry_nreader.c: the pages of instructions, the table of sections, the sections
-- themselves, the string table and `merry_reader_read_file`.
use merry_v.Common.{
  ◌>>=◌, ℕ, zero, suc, ◌+◌, ◌-◌, ◌*◌, ◌/◌, ◌%◌, Bool, true, false, min, not, ◌&&◌, Option, none,
  some, List, [], ◌∷◌, ◌++◌, ltb, ◌==◌, if◌then◌else◌, wrap, word_mod, take, drop, length, get_or,
  update,
}
use merry_v.Block.Endian.{load, store}
use merry_v.Block.Runs.{blit}
use merry_v.Memory.{MemPage, qs_per_page}
use merry_v.DMemory.{page_size}
use merry_v.Reader.{
  Reader, Host, Section, SectionType, Symbol, data_section, info, symd, other, get_number,
  is_file_fit_to_read, read_header, validate_header_info, read_eat, sections_len,
}

-- The loop of `merry_reader_get_mem_from_os` in round `i`, with `n` rounds left: every round stores
-- its page in the first entry of the table.
unfoldable pub map_pages : (ℕ → Option ℕ) → ℕ → ℕ → (ℕ → ℕ) → Option (ℕ → ℕ)
map_pages mmap zero i addrs = some addrs
map_pages mmap (suc n) i addrs = elim (mmap i) [
  | none ↦ none
  | some page ↦ map_pages mmap n (i + 1) (store 8 addrs 0 page)
]

-- `merry_reader_get_mem_from_os`
unfoldable pub get_mem_from_os : Host → (ℕ → Option ℕ) → ℕ → Option (ℕ → ℕ)
unfolding map_pages
get_mem_from_os h mmap count = if h.malloc_ok then map_pages mmap count 0 h.left else none

-- The page pointer at entry `i` of a table.
abbrev pub pointer : (ℕ → ℕ) → ℕ → ℕ
pointer table i = load 8 table (8 * i)

-- The memory behind a pointer once `fread` has put `n` qwords there; the host is little-endian.
unfoldable pub put_words : ℕ → List ℕ → MemPage → MemPage
put_words n bytes page j = if ltb j n then load 8 (λ i. get_or bytes i 0) (8 * j) else page j

-- `if (fread(r->inst.instructions[i], 8, n, r->f) != n) return RET_FAILURE;`
unfoldable pub read_words : ℕ → ℕ → Reader → Option Reader
unfolding put_words
read_words i n r =
    let page = pointer r.instructions i in
    if ltb (length r.f) (8 * n)
    then none
    else some (record r {
      heap = update r.heap page (put_words n (take (8 * n) r.f) (r.heap page));
      f = drop (8 * n) r.f;
    })

-- The loop over the whole pages in round `i`, with `n` rounds left.
unfoldable pub read_inst_pages : ℕ → ℕ → Reader → Option Reader
unfolding read_words
read_inst_pages zero i r = some r
read_inst_pages (suc n) i r = read_words i qs_per_page r >>= λ r'. read_inst_pages n (i + 1) r'

-- `merry_reader_read_instructions`
unfoldable pub read_instructions : Host → Reader → Option Reader
unfolding get_mem_from_os read_inst_pages read_words
read_instructions h r =
    let inst_count = r.inst_section_len / 8 in
    let number_of_pages = inst_count / qs_per_page in
    let extra_addrs = inst_count % qs_per_page in
    let count = number_of_pages + (if ltb 0 extra_addrs then 1 else 0) in
    get_mem_from_os h h.mmap_inst count >>= λ table.
    read_inst_pages number_of_pages 0 (record r { instructions = table; inst_page_count = count })
    >>= λ r'. if ltb 0 extra_addrs then read_words number_of_pages extra_addrs r' else some r'

-- `entry[8] & 3`
unfoldable pub section_type : ℕ → SectionType
section_type t =
    if t == 0 then data_section else (if t == 1 then info else (if t == 2 then symd else other))

-- `_t == _INFO || _t == _SYMD`
abbrev pub is_kept_out : SectionType → Bool
is_kept_out info = true
is_kept_out symd = true
is_kept_out _ = false

abbrev pub is_symd : SectionType → Bool
is_symd symd = true
is_symd _ = false

-- One entry of the table of sections. The other two bytes of its 16 are not read.
unfoldable pub parse_section : (ℕ → ℕ) → Section
unfolding section_type
parse_section entry =
    let t = section_type (entry 8 % 4) in
    record {
      section_len = get_number entry 0;
      type = t;
      st_index = ((entry 12 * 256 + entry 13) * 256 + entry 14) * 256 + entry 15;
      rim = if is_kept_out t then false else entry 9 % 2 == 1;
      ras = entry 10 % 2 == 1;
    }

-- The loop of `merry_reader_read_sst` with `n` rounds left, and the total length.
unfoldable pub read_sst_entries : ℕ → Reader → ℕ → Option (Reader × ℕ)
unfolding parse_section
read_sst_entries zero r total_len = some (r, total_len)
read_sst_entries (suc n) r total_len =
    let s = parse_section (λ i. get_or r.f i 0) in
    let rest =
      read_sst_entries n
        (record r {
          f = drop 16 r.f;
          sections = r.sections ++ (s ∷ []);
          symd_section_provided = if is_symd s.type then true else r.symd_section_provided;
          data_len = if s.rim then wrap (r.data_len + s.section_len) else r.data_len;
        })
        (wrap (total_len + s.section_len)) in
    if ltb (length r.f) 16 then none else (if not (s.section_len % 8 == 0) then none else rest)

-- The check that ends `merry_reader_read_sst`.
unfoldable pub check_total : ℕ → Reader × ℕ → Option Reader
check_total sst_entry_count (r, total_len) =
    if ltb r.flen (wrap (sections_len r + total_len))
    then none
    else some (record r { sst_entry_count = sst_entry_count })

-- `merry_reader_read_sst`
unfoldable pub read_sst : Host → Reader → Option Reader
unfolding read_sst_entries check_total
read_sst h r =
    let sst_entry_count = r.sst_len / 16 in
    if h.malloc_ok
    then read_sst_entries sst_entry_count (record r { sections = [] }) 0
      >>= check_total sst_entry_count
    else none

-- The loop over the entries of a section of symbols in round `j`, with `n` rounds left.
unfoldable pub read_symbols : ℕ → ℕ → Reader → Option Reader
read_symbols zero j r = some r
read_symbols (suc n) j r =
    let entry : ℕ → ℕ = λ i. get_or r.f i 0 in
    let symbol : Symbol = record { address = get_number entry 0; index = get_number entry 8 } in
    let rest =
      read_symbols n (j + 1) (record r { f = drop 16 r.f; syms = update r.syms j symbol }) in
    if ltb (length r.f) 16 then none else rest

-- How an fread ends: the bytes are there, the file is too short, or bytes are written behind the end
-- of the block.
pub data Fetched : Type 0 where
  got : Reader → Fetched
  too_short behind_end : Fetched

-- Whether what an fread of `n` bytes delivers leaves a block of `size` bytes, from byte `start` on.
abbrev pub leaves : ℕ → ℕ → ℕ → Reader → Bool
leaves size start n r = let put = min n (length r.f) in not (put == 0) && ltb size (start + put)

-- `fread((r->data + current_off), 1, n, r->f)`: `r->data` is the table of page pointers, so the bytes
-- go into the table, which has eight bytes for each page.
unfoldable pub read_data : ℕ → ℕ → Reader → Fetched
read_data current_off n r =
    if leaves (8 * r.data_page_count) (8 * current_off) n r
    then behind_end
    else (if ltb (length r.f) n
        then too_short
        else got (record r {
          data_table = blit r.data_table (8 * current_off) (take n r.f);
          f = drop n r.f;
        }))

-- The state of `merry_reader_read_sections` between two sections.
pub record Place : Type 0 where
  pub current_index : ℕ
  pub current_off : ℕ

-- How the loop over the bytes of a section ends: at its end, with a failure, with a write behind the
-- end of the table, or, as `spinning`, not in the rounds given.
pub data Copy : Type 0 where
  done : Reader → Place → Copy
  short overrun spinning : Copy

-- The loop over the bytes of a section, `section_len` of which are left.
unfoldable pub copy_section : ℕ → ℕ → Place → Reader → Copy
unfolding read_data
copy_section zero section_len p r = if section_len == 0 then done r p else spinning
copy_section (suc fuel) section_len p r =
    let cap = wrap (page_size + word_mod - p.current_index) in
    if section_len == 0
    then done r p
    else elim (read_data p.current_off (if ltb cap section_len then cap else section_len) r) [
      | too_short ↦ short
      | behind_end ↦ overrun
      | got r' ↦
          if ltb cap section_len
          then copy_section fuel (section_len - cap)
              (record { current_index = p.current_index + 1; current_off = 0 }) r'
          else copy_section fuel 0 (record p { current_off = p.current_off + section_len }) r'
    ]

-- One section of `merry_reader_read_sections`: on a little-endian host the two kinds of data are read
-- byte by byte whatever `ras` says, and an `info` section is skipped.
unfoldable pub read_section : Host → Section → Place → Reader → Copy
unfolding copy_section read_symbols
read_section h s p r =
    if s.rim
    then elim s.type [
      | data_section ↦ copy_section (suc s.section_len) s.section_len p r
      | other ↦ copy_section (suc s.section_len) s.section_len p r
      | info ↦ done r p
      | symd ↦
          let entries = s.section_len / 16 in
          if h.realloc_ok
          then elim (read_symbols entries 0 (record r { sym_count = r.sym_count + entries })) [
            | none ↦ short
            | some r' ↦ done r' p
          ]
          else short
    ]
    else done r p

unfoldable pub read_section_list : Host → List Section → Place → Reader → Copy
unfolding read_section
read_section_list h [] p r = done r p
read_section_list h (s ∷ rest) p r = elim (read_section h s p r) [
  | done r' p' ↦ read_section_list h rest p' r'
  | short ↦ short
  | overrun ↦ overrun
  | spinning ↦ spinning
]

-- `merry_reader_read_sections`
unfoldable pub read_sections : Host → Reader → Copy
unfolding get_mem_from_os read_section_list
read_sections h r =
    let data_count = r.data_len / 8 in
    let count = data_count / qs_per_page + (if ltb 0 (data_count % qs_per_page) then 1 else 0) in
    elim (get_mem_from_os h h.mmap_data count) [
      | none ↦ short
      | some table ↦
          read_section_list h r.sections (record { current_index = 0; current_off = 0 })
            (record r { data_table = table; data_page_count = count })
    ]

-- `merry_reader_read_st`: the block has room for a pointer.
unfoldable pub read_st : Host → Reader → Fetched
read_st h r =
    if h.malloc_ok
    then (if leaves 8 0 r.st_len r
        then behind_end
        else (if ltb (length r.f) r.st_len
            then too_short
            else got (record r { st_data = take r.st_len r.f; f = drop r.st_len r.f })))
    else too_short

-- The outcome of `merry_reader_read_file`; `corrupted` is a write behind the end of a block.
pub data Loaded : Type 0 where
  loaded : Reader → Loaded
  failure corrupted unending : Loaded

-- The last condition of `merry_reader_read_file`.
unfoldable pub read_strings : Host → Reader → Loaded
unfolding read_st
read_strings h r =
    if r.ste_flag && ltb 0 r.st_len
    then elim (read_st h r) [ too_short ↦ failure | behind_end ↦ corrupted | got r' ↦ loaded r' ]
    else loaded r

-- The steps of `merry_reader_read_file` up to the instructions.
unfoldable pub read_front : Host → List ℕ → Reader → Option Reader
unfolding is_file_fit_to_read read_header validate_header_info read_eat read_instructions
read_front h bytes r = is_file_fit_to_read (length bytes) r >>= λ r1. read_header h r1 >>= λ r2.
    validate_header_info r2 >>= λ r3. read_eat h r3 >>= λ r4. read_instructions h r4

-- `merry_reader_read_file` on a file of these bytes.
unfoldable pub read_file : Host → List ℕ → Reader → Loaded
unfolding read_front read_sst read_sections read_strings
read_file h bytes r = elim (read_front h bytes r) [
  | none ↦ failure
  | some r1 ↦ if r1.sst_len == 0 then read_strings h r1 else elim (read_sst h r1) [
    | none ↦ failure
    | some r2 ↦ elim (read_sections h r2) [
      | done r3 p ↦ read_strings h r3
      | short ↦ failure
      | overrun ↦ corrupted
      | spinning ↦ unending
    ]
  ]
]
