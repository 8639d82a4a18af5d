-- ===== src/Reader/Tests.antt =====
-- A concrete program and a concrete section, and the theorems of the reader at them.
use merry_v.Common.{Bool, false, ℕ, ◌≡◌, refl, true, false, some, [], ◌∷◌, arith, length}
use merry_v.Block.Runs.{slice}
use merry_v.Memory.{MemPage}
use merry_v.Reader.{Reader, Host, Section, data_section, init_reader}
use merry_v.Reader.Load.{Copy, done, overrun, Place, loaded, pointer, read_file, read_section_list}
use merry_v.Reader.Format.{Program, encode}
use merry_v.Reader.Loops.{Ends, all_bytes_read, read_section_list-Ends}
use merry_v.Reader.Program.{read_program, read_file-encode}

abbrev host : Host
host = record {
  malloc_ok = true;
  realloc_ok = true;
  mmap_inst = λ i. some 4096;
  mmap_data = λ i. some 8192;
  left = λ i. 0;
}

abbrev heap : ℕ → MemPage
heap p i = 0

abbrev program : Program
program = record { entries = 0 ∷ 1 ∷ []; words = 5 ∷ 7 ∷ 4294967296 ∷ [] }

abbrev section : Section
section = record { section_len = 8; type = data_section; st_index = 0; rim = true; ras = false }

abbrev start : Place
start = record { current_index = 0; current_off = 0 }

abbrev reader : Reader
reader = record (init_reader (λ i. 0) heap (1 ∷ 2 ∷ 3 ∷ 4 ∷ 5 ∷ 6 ∷ 7 ∷ 8 ∷ 9 ∷ 10 ∷ [])) {
  data_page_count = 1;
}

abbrev is_done : Copy → Bool
is_done (done r p) = true
is_done _ = false

abbrev is_overrun : Copy → Bool
is_overrun overrun = true
is_overrun _ = false

-- One section of eight bytes is read, and the bytes of a second one leave the table of one page.
one-read : is_done (read_section_list host (section ∷ []) start reader) ≡ true
unfolding read_section_list init_reader
one-read = refl

two-overrun : is_overrun (read_section_list host (section ∷ section ∷ []) start reader) ≡ true
unfolding read_section_list init_reader
two-overrun = refl

read_file-encode_example :
    (read_file host (encode program) (init_reader host.left heap (encode program))
      ≡ loaded (read_program host heap program 4096))
    × (slice
          ((read_program host heap program 4096).heap
            (pointer (read_program host heap program 4096).instructions 0))
          0
          (length program.words)
        ≡ program.words)
read_file-encode_example =
    read_file-encode host heap program 4096 refl refl (omega arith) (omega arith, (omega arith, tt))
      (omega arith, (omega arith, (omega arith, tt))) (omega arith) (omega arith) (omega arith)
      (omega arith)

read_section_list-Ends_example :
    Ends (all_bytes_read (section ∷ [])) reader (read_section_list host (section ∷ []) start reader)
read_section_list-Ends_example =
    read_section_list-Ends host (section ∷ []) start reader (omega arith, tt) (omega arith)
