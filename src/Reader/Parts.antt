-- ===== src/Reader/Parts.antt =====
-- What the steps of `merry_reader_read_file` in merry/merry_nreader.c make of the parts of a file that
-- a writer produced.
use merry_v.Common.{
  ℕ, zero, suc, ◌*◌, ◌/◌, ◌%◌, ◌≤◌, ◌<◌, ◌≡◌, refl, sym, ap, ap₂, ◌∙◌, Bool, true, false, none,
  some, List, [], ◌∷◌, ◌++◌, arith, length, drop, take, ltb, ◌==◌, ◌&&◌, if◌then◌else◌, word_mod,
  Bool-cases, inl, inr, update,
}
use merry_v.Block.Endian.{store, load-store}
use merry_v.Block.Runs.{slice, blit, slice-blit}
use merry_v.Memory.{qs_per_page}
use merry_v.Reader.{Reader, Host, validate_header_info, read_eat, eat_entries}
use merry_v.Reader.Load.{
  map_pages, get_mem_from_os, pointer, put_words, read_words, read_inst_pages, read_instructions,
}
use merry_v.Reader.Format.{encode_entries, AllWords}
use merry_v.Reader.Entries.{length-encode_entries, eat_entries-encode}

pub take_whole : (n : ℕ) (xs : List ℕ) → length xs ≡ n → take n xs ≡ xs
take_whole zero [] e = refl
take_whole (suc n) [] e = absurd (omega arith)
take_whole zero (x ∷ xs) e = absurd (omega arith)
take_whole (suc n) (x ∷ xs) e = ap (◌∷◌ x) (take_whole n xs (omega arith))

pub drop_whole : (n : ℕ) (xs : List ℕ) → length xs ≡ n → drop n xs ≡ []
drop_whole zero [] e = refl
drop_whole (suc n) [] e = absurd (omega arith)
drop_whole zero (x ∷ xs) e = absurd (omega arith)
drop_whole (suc n) (x ∷ xs) e = drop_whole n xs (omega arith)

pub le→ltb : (a b : ℕ) → b ≤ a → ltb a b ≡ false
le→ltb a b h = ground arith

-- The first part of a list, and what is behind it.
split_at :
    (n : ℕ) (xs ys : List ℕ) → length xs ≡ n → (take n (xs ++ ys) ≡ xs) × (drop n (xs ++ ys) ≡ ys)
split_at zero [] ys e = (refl, refl)
split_at (suc n) [] ys e = absurd (omega arith)
split_at zero (x ∷ xs) ys e = absurd (omega arith)
split_at (suc n) (x ∷ xs) ys e =
    let rest = split_at n xs ys (omega arith) in (ap (◌∷◌ x) rest.0, rest.1)

-- A read that the file has the bytes for.
read_words-enough :
    (i n : ℕ) (r : Reader)
    → 8 * n ≤ length r.f
    → read_words i n r
      ≡ some (record r {
        heap =
            update r.heap
              (pointer r.instructions i)
              (put_words n (take (8 * n) r.f) (r.heap (pointer r.instructions i)));
        f = drop (8 * n) r.f;
      })
unfolding read_words
read_words-enough i n r le = elim (Bool-cases (ltb (length r.f) (8 * n))) [
  | inl e ↦ absurd (ground arith)
  | inr e ↦ rw e refl
]

-- The table of pages of one page that mmap gave.
get_mem_from_os_one :
    (h : Host) (page : ℕ)
    → h.malloc_ok ≡ true
    → h.mmap_inst 0 ≡ some page
    → get_mem_from_os h h.mmap_inst 1 ≡ some (store 8 h.left 0 page)
unfolding get_mem_from_os map_pages
get_mem_from_os_one h page m mm =
    ap (λ b. if b then map_pages h.mmap_inst 1 0 h.left else none) m
    ∙ ap (λ o. elim o [ none ↦ none | some p ↦ some (store 8 h.left 0 p) ]) mm

-- The instructions of at most one page, at a page that mmap gave.
pub read_instructions-page :
    (h : Host) (r : Reader) (n page : ℕ)
    → h.malloc_ok ≡ true
    → h.mmap_inst 0 ≡ some page
    → page < word_mod
    → r.inst_section_len ≡ 8 * n
    → 0 < n
    → n < qs_per_page
    → length r.f ≡ 8 * n
    → read_instructions h r
      ≡ some (record r {
        instructions = store 8 h.left 0 page;
        inst_page_count = 1;
        heap = update r.heap page (put_words n (take (8 * n) r.f) (r.heap page));
        f = drop (8 * n) r.f;
      })
unfolding read_instructions read_inst_pages
read_instructions-page h r n page m mm small len pos lt enough =
    let pages : r.inst_section_len / 8 / qs_per_page ≡ 0 = omega arith in
    let extra : (r.inst_section_len / 8) % qs_per_page ≡ n = omega arith in
    let some_extra : ltb 0 n ≡ true = ground arith in
    let r1 = record r { instructions = store 8 h.left 0 page; inst_page_count = 1 } in
    rw (pages, extra, some_extra, get_mem_from_os_one h page m mm)
      (read_words-enough 0 n r1 (omega arith)
        ∙ ap
            (λ q. some (record r1 {
              heap = update r.heap q (put_words n (take (8 * n) r.f) (r.heap q));
              f = drop (8 * n) r.f;
            }))
            (load-store 8 h.left 0 page (omega arith)))

if_and_false {ℓ} : {A : Type ℓ} (b c : Bool) (x y : A) → c ≡ false → (if b && c then x else y) ≡ y
if_and_false true c x y e = ap (λ d. if d then x else y) e
if_and_false false c x y e = refl

-- A header without sections, with entries and instructions, is valid as it is.
pub validate_header_info-plain :
    (r : Reader) (n k : ℕ)
    → r.inst_section_len ≡ 8 * n
    → 0 < n
    → r.sst_len ≡ 0
    → r.eat_len ≡ 8 * k
    → r.ste_flag ≡ false
    → r.de_flag ≡ false
    → validate_header_info r ≡ some r
unfolding validate_header_info
validate_header_info-plain r n k inst pos sst eat ste de =
    let inst_some : (r.inst_section_len == 0) ≡ false = ground arith in
    let inst_whole : (r.inst_section_len % 8 == 0) ≡ true = ground arith in
    let sst_whole : (r.sst_len % 16 == 0) ≡ true = ground arith in
    let eat_whole : (r.eat_len % 8 == 0) ≡ true = ground arith in
    let ste_kept = if_and_false (r.st_len == 0) r.ste_flag false r.ste_flag ste in
    let de_kept = if_and_false (r.sst_len == 0) r.de_flag false r.de_flag de in
    let len_kept = if_and_false (r.sst_len == 0) r.de_flag 0 r.data_len de in
    rw (inst_some, inst_whole, sst_whole, eat_whole)
      (ap₂ (λ a (b : Bool × ℕ). some (record r { ste_flag = a; de_flag = b.0; data_len = b.1 }))
        ste_kept (ap₂ (λ a b. (a, b)) de_kept len_kept))

-- A table of entry addresses that a writer produced.
pub read_eat-encode :
    (h : Host) (r : Reader) (xs : List ℕ) (rest : List ℕ)
    → h.malloc_ok ≡ true
    → AllWords xs
    → 0 < length xs
    → r.eat_len ≡ 8 * length xs
    → r.f ≡ encode_entries xs ++ rest
    → read_eat h r ≡ some (record r { eat = xs; eat_entry_count = length xs; f = rest })
unfolding read_eat
read_eat-encode h r xs rest m ok pos len file =
    let count : r.eat_len / 8 ≡ length xs = omega arith in
    let some_entries : (length xs == 0) ≡ false = ground arith in
    let size = length-encode_entries xs in
    let parts = split_at (8 * length xs) (encode_entries xs) rest size in
    let front : take r.eat_len r.f ≡ encode_entries xs = ap₂ take len file ∙ parts.0 in
    let back : drop r.eat_len r.f ≡ rest = ap₂ drop len file ∙ parts.1 in
    let decoded : eat_entries (blit h.left 0 (encode_entries xs)) (length xs) 0 ≡ xs =
      eat_entries-encode (blit h.left 0 (encode_entries xs)) xs 0 ok (
        ap (slice (blit h.left 0 (encode_entries xs)) 0) (sym size)
        ∙ slice-blit h.left 0 (encode_entries xs)) in
    rw (m, count, some_entries, front, back, decoded) refl
