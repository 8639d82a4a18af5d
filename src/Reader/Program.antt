-- ===== src/Reader/Program.antt =====
-- A file that a writer produced, read by `merry_reader_read_file` of merry/merry_nreader.c.
use merry_v.Common.{
  ◌>>=◌, ℕ, suc, ◌+◌, ◌*◌, ◌<◌, ◌≡◌, refl, ap, ap₂, ◌∙◌, true, false, none, some, Option, List, [],
  ◌∷◌, ◌++◌, arith, length, get_or, ltb, ◌==◌, if◌then◌else◌, word_mod, length-append, update,
  update_self,
}
use merry_v.Block.Endian.{load, store, load-store}
use merry_v.Block.Runs.{slice}
use merry_v.Memory.{MemPage, qs_per_page}
use merry_v.Reader.{
  Reader, Host, init_reader, is_file_fit_to_read, read_header, validate_header_info, read_eat,
}
use merry_v.Reader.Load.{
  pointer, put_words, read_front, read_strings, read_file, loaded, failure, corrupted, overrun,
  unending, done, short, spinning, read_sst, read_sections,
}
use merry_v.Reader.Format.{Program, program_lengths, encode, encode_entries, encode_words, AllWords}
use merry_v.Reader.Header.{read_header-encode}
use merry_v.Reader.Entries.{length-encode_entries, length-encode_words, load-encode_words}
use merry_v.Reader.Parts.{
  take_whole, drop_whole, le→ltb, read_instructions-page, validate_header_info-plain,
  read_eat-encode,
}

-- The reader of a program that was read: one page of instructions, at what mmap gave.
abbrev pub read_program : Host → (ℕ → MemPage) → Program → ℕ → Reader
read_program h heap p page = record (init_reader h.left heap []) {
  flen = length (encode p);
  inst_section_len = 8 * length p.words;
  eat_len = 8 * length p.entries;
  eat = p.entries;
  eat_entry_count = length p.entries;
  instructions = store 8 h.left 0 page;
  inst_page_count = 1;
  heap = update heap page (put_words (length p.words) (encode_words p.words) (heap page));
}

>>=_some {ℓ κ} :
    {A : Type ℓ} {B : Type κ} (o : Option A) (a : A) (next : A → Option B) (c : Option B)
    → o ≡ some a
    → next a ≡ c
    → (o >>= next) ≡ c
>>=_some o a next c e k = ap (λ x. x >>= next) e ∙ k

length-encode : (p : Program) → length (encode p) ≡ 40 + (8 * length p.entries + 8 * length p.words)
length-encode p = omega (
  arith,
  length-append (encode_entries p.entries) (encode_words p.words),
  length-encode_entries p.entries,
  length-encode_words p.words,
)

read_front-encode :
    (h : Host) (heap : ℕ → MemPage) (p : Program) (page : ℕ)
    → h.malloc_ok ≡ true
    → h.mmap_inst 0 ≡ some page
    → page < word_mod
    → AllWords p.entries
    → 0 < length p.entries
    → 8 * length p.entries + 8 * length p.words < word_mod
    → 0 < length p.words
    → length p.words < qs_per_page
    → read_front h (encode p) (init_reader h.left heap (encode p))
      ≡ some (read_program h heap p page)
unfolding read_front is_file_fit_to_read init_reader
read_front-encode h heap p page m mm small ok some_entries fits some_words one_page =
    let l = program_lengths p in
    let back = encode_entries p.entries ++ encode_words p.words in
    let r0 = init_reader h.left heap (encode p) in
    let r1 = record r0 { flen = length (encode p) } in
    let r2 = record r1 { f = back; inst_section_len = l.inst; eat_len = l.eat } in
    let r3 = record r2 {
      eat = p.entries;
      eat_entry_count = length p.entries;
      f = encode_words p.words;
    } in
    let long : ltb (length (encode p)) 40 ≡ false = le→ltb (length (encode p)) 40 (omega arith) in
    let room : ltb (length (encode p)) (l.inst + l.eat + l.sst + l.st) ≡ false =
      le→ltb (length (encode p)) (l.inst + l.eat + l.sst + l.st) (omega (arith, length-encode p)) in
    let size = length-encode_words p.words in
    >>=_some (is_file_fit_to_read (length (encode p)) r0) r1 _ _ (rw long refl) (
      >>=_some (read_header h r1) r2 _ _
        (read_header-encode h l back r1 refl refl refl (omega arith) ∙ rw room refl)
        (>>=_some (validate_header_info r2) r2 _ _
          (validate_header_info-plain r2 (length p.words) (length p.entries) refl some_words refl
            refl refl refl)
          (>>=_some (read_eat h r2) r3 _ _
            (read_eat-encode h r2 p.entries (encode_words p.words) m ok some_entries refl refl)
            (read_instructions-page h r3 (length p.words) page m mm small refl some_words one_page
                size
              ∙ ap₂
                  (λ bytes rest. some (record (read_program h heap p page) {
                    f = rest;
                    heap = update heap page (put_words (length p.words) bytes (heap page));
                  }))
                  (take_whole (8 * length p.words) (encode_words p.words) size)
                  (drop_whole (8 * length p.words) (encode_words p.words) size)))))

read_file-loaded :
    (h : Host) (heap : ℕ → MemPage) (p : Program) (page : ℕ)
    → h.malloc_ok ≡ true
    → h.mmap_inst 0 ≡ some page
    → page < word_mod
    → AllWords p.entries
    → 0 < length p.entries
    → 8 * length p.entries + 8 * length p.words < word_mod
    → 0 < length p.words
    → length p.words < qs_per_page
    → read_file h (encode p) (init_reader h.left heap (encode p))
      ≡ loaded (read_program h heap p page)
unfolding read_file read_strings init_reader
read_file-loaded h heap p page m mm small ok some_entries fits some_words one_page =
    ap
      (λ o. elim o [
        | none ↦ failure
        | some r1 ↦ if r1.sst_len == 0 then read_strings h r1 else elim (read_sst h r1) [
          | none ↦ failure
          | some r2 ↦ elim (read_sections h r2) [
            | done r3 q ↦ read_strings h r3
            | short ↦ failure
            | overrun ↦ corrupted
            | spinning ↦ unending
          ]
        ]
      ])
      (read_front-encode h heap p page m mm small ok some_entries fits some_words one_page)

-- A block that agrees with a list.
slice-get_or :
    (f : ℕ → ℕ) (o : ℕ) (xs : List ℕ)
    → ((i : ℕ) → i < length xs → f (o + i) ≡ get_or xs i 0)
    → slice f o (length xs) ≡ xs
unfolding slice
slice-get_or f o [] e = refl
slice-get_or f o (x ∷ xs) e =
    ap₂ ◌∷◌ (ap f (omega arith) ∙ e 0 (omega arith))
      (slice-get_or f (o + 1) xs (λ i lt. ap f (omega arith) ∙ e (suc i) (omega arith)))

put_words-written :
    (n j : ℕ) (bytes : List ℕ) (page : MemPage)
    → j < n
    → put_words n bytes page j ≡ load 8 (λ i. get_or bytes i 0) (8 * j)
unfolding put_words
put_words-written n j bytes page lt =
    let written : ltb j n ≡ true = ground arith in
    ap (λ b. if b then load 8 (λ i. get_or bytes i 0) (8 * j) else page j) written

-- The instructions behind the page pointer of the loaded program are those of the file.
read_program-fetch :
    (h : Host) (heap : ℕ → MemPage) (p : Program) (page : ℕ)
    → page < word_mod
    → AllWords p.words
    → slice
        ((read_program h heap p page).heap (pointer (read_program h heap p page).instructions 0))
        0
        (length p.words)
      ≡ p.words
read_program-fetch h heap p page small ok =
    let loaded_page = put_words (length p.words) (encode_words p.words) (heap page) in
    let at : pointer (store 8 h.left 0 page) 0 ≡ page = load-store 8 h.left 0 page (omega arith) in
    let found : update heap page loaded_page (pointer (store 8 h.left 0 page) 0) ≡ loaded_page =
      ap (update heap page loaded_page) at ∙ update_self heap page loaded_page in
    ap (λ m. slice m 0 (length p.words)) found
    ∙ slice-get_or loaded_page 0 p.words (λ j lt.
      ap loaded_page (omega arith)
      ∙ put_words-written (length p.words) j (encode_words p.words) (heap page) lt
      ∙ load-encode_words p.words j ok lt)

-- A file with entry addresses and fewer than 131072 instructions, all below 2 ^ 64 and laid out
-- as a writer would, is loaded if malloc succeeds and mmap gives a page: every entry address is
-- read back, nothing of the file is left, and the first page pointer leads to the instructions,
-- in the order of the file.
pub read_file-encode :
    (h : Host) (heap : ℕ → MemPage) (p : Program) (page : ℕ)
    → h.malloc_ok ≡ true
    → h.mmap_inst 0 ≡ some page
    → page < word_mod
    → AllWords p.entries
    → AllWords p.words
    → 0 < length p.entries
    → 8 * length p.entries + 8 * length p.words < word_mod
    → 0 < length p.words
    → length p.words < qs_per_page
    → (read_file h (encode p) (init_reader h.left heap (encode p))
        ≡ loaded (read_program h heap p page))
      × (slice
            ((read_program h heap p page).heap
              (pointer (read_program h heap p page).instructions 0))
            0
            (length p.words)
          ≡ p.words)
read_file-encode h heap p page m mm small ok words_ok some_entries fits some_words one_page = (
  read_file-loaded h heap p page m mm small ok some_entries fits some_words one_page,
  read_program-fetch h heap p page small words_ok,
)
