-- ===== src/Reader/Entries.antt =====
-- What the reader, merry/merry_nreader.c, makes of the entry addresses and of the instructions that a
-- writer produced.
use merry_v.Common.{
  ℕ, zero, suc, ◌+◌, ◌*◌, ◌/◌, ◌%◌, ◌<◌, ◌≡◌, refl, ap, ap₂, ◌∙◌, List, [], ◌∷◌, arith, length,
  get_or, drop, take,
}
use merry_v.Block.Endian.{bound, load, load-ext}
use merry_v.Block.Runs.{slice}
use merry_v.Reader.{eat_entries}
use merry_v.Reader.Format.{little_endian, encode_entries, encode_words, AllWords}
use merry_v.Reader.Header.{get_number-big_endian}

pub length-encode_entries : (xs : List ℕ) → length (encode_entries xs) ≡ 8 * length xs
length-encode_entries [] = refl
length-encode_entries (x ∷ xs) = omega (arith, length-encode_entries xs)

pub length-encode_words : (xs : List ℕ) → length (encode_words xs) ≡ 8 * length xs
length-encode_words [] = refl
length-encode_words (x ∷ xs) = omega (arith, length-encode_words xs)

-- A list of eight and more cells.
abbrev eight_more : ℕ → ℕ
eight_more n = suc (suc (suc (suc (suc (suc (suc (suc n)))))))

-- The loop of `merry_reader_read_eat` decodes the table that a writer produced.
pub eat_entries-encode :
    (arr : ℕ → ℕ) (xs : List ℕ) (j : ℕ)
    → AllWords xs
    → slice arr j (8 * length xs) ≡ encode_entries xs
    → eat_entries arr (length xs) j ≡ xs
unfolding eat_entries slice
eat_entries-encode arr [] j ok e = refl
eat_entries-encode arr (x ∷ xs) j ok e =
    let cells : slice arr j (eight_more (8 * length xs)) ≡ encode_entries (x ∷ xs) =
      ap (slice arr j) {x = eight_more (8 * length xs)} (omega arith) ∙ e in
    let back : slice arr (j + 8) (8 * length xs) ≡ encode_entries xs =
      ap (λ k. slice arr k (8 * length xs)) (omega arith) ∙ ap (drop 8) cells in
    ap₂ ◌∷◌ (get_number-big_endian arr j x ok.0 (ap (take 8) cells))
      (eat_entries-encode arr xs (j + 8) ok.1 back)

-- The little-endian bytes of a word are that word.
load-little_endian :
    (n : ℕ) (f : ℕ → ℕ) (o v : ℕ) → v < bound n → slice f o n ≡ little_endian n v → load n f o ≡ v
unfolding load slice
load-little_endian zero f o v lt e = omega arith
load-little_endian (suc n) f o v lt e =
    let head : f o ≡ v % 256 = ap (λ l. get_or l 0 0) e in
    let tail : load n f (o + 1) ≡ v / 256 =
      load-little_endian n f (o + 1) (v / 256) (omega arith) (ap (drop 1) e) in
    omega arith

-- Word `j` of the bytes that a writer produced.
pub load-encode_words :
    (xs : List ℕ) (j : ℕ)
    → AllWords xs
    → j < length xs
    → load 8 (λ i. get_or (encode_words xs) i 0) (8 * j) ≡ get_or xs j 0
load-encode_words [] j ok lt = absurd (omega arith)
load-encode_words (x ∷ xs) zero ok lt =
    load-little_endian 8 (λ i. get_or (encode_words (x ∷ xs)) i 0) 0 x ok.0 (unfold slice in refl)
load-encode_words (x ∷ xs) (suc j) ok lt =
    load-ext 8 (λ i. get_or (encode_words (x ∷ xs)) i 0) (λ i. get_or (encode_words xs) i 0)
      (8 * suc j) (8 * j) further
    ∙ load-encode_words xs j ok.1 (omega arith)
  where
    further :
        (i a b : ℕ)
        → i < 8
        → a ≡ 8 * suc j + i
        → b ≡ 8 * j + i
        → get_or (encode_words (x ∷ xs)) a 0 ≡ get_or (encode_words xs) b 0
    further i a b lt ea eb =
        ap (λ m. get_or (encode_words (x ∷ xs)) m 0) {y = eight_more b} (omega arith)
