-- ===== src/Reader/Format.antt =====
-- The format of an input file as a writer of such files would produce it: a description of what
-- merry/merry_nreader.c reads, independent of how it reads. A file has a header of 40 bytes, the
-- table of entry addresses and the instructions; sections and strings are left out.
use merry_v.Common.{
  ℕ, zero, suc, ◌*◌, ◌/◌, ◌%◌, List, [], ◌∷◌, ◌++◌, length, Bool, false, if◌then◌else◌, word_mod,
  ◌<◌,
}
use merry_v.Block.Endian.{bound}

-- `n` bytes of a number, the highest first.
abbrev pub big_endian : ℕ → ℕ → List ℕ
big_endian zero v = []
big_endian (suc n) v = v / bound n % 256 ∷ big_endian n v

-- `n` bytes of a number, the lowest first.
abbrev pub little_endian : ℕ → ℕ → List ℕ
little_endian zero v = []
little_endian (suc n) v = v % 256 ∷ little_endian n (v / 256)

-- The lengths and flags that a header carries.
pub record Lengths : Type 0 where
  pub ste : Bool
  pub de : Bool
  pub inst : ℕ
  pub eat : ℕ
  pub sst : ℕ
  pub st : ℕ

abbrev pub flag_byte : Bool → ℕ
flag_byte b = if b then 1 else 0

-- "MIN", three bytes that are not read, the flags and the lengths.
abbrev pub encode_header : Lengths → List ℕ
encode_header l =
    77
    ∷ 73
    ∷ 78
    ∷ 0
    ∷ 0
    ∷ 0
    ∷ flag_byte l.de
    ∷ flag_byte l.ste
    ∷ (big_endian 8 l.inst ++ (big_endian 8 l.eat ++ (big_endian 8 l.sst ++ big_endian 8 l.st)))

abbrev pub encode_entries : List ℕ → List ℕ
encode_entries [] = []
encode_entries (x ∷ xs) = big_endian 8 x ++ encode_entries xs

abbrev pub encode_words : List ℕ → List ℕ
encode_words [] = []
encode_words (x ∷ xs) = little_endian 8 x ++ encode_words xs

pub record Program : Type 0 where
  pub entries : List ℕ
  pub words : List ℕ

abbrev pub program_lengths : Program → Lengths
program_lengths p = record {
  ste = false;
  de = false;
  inst = 8 * length p.words;
  eat = 8 * length p.entries;
  sst = 0;
  st = 0;
}

abbrev pub encode : Program → List ℕ
encode p = encode_header (program_lengths p) ++ (encode_entries p.entries ++ encode_words p.words)

-- Every number of the list fits 64 bits.
abbrev pub AllWords : List ℕ → Type 0
AllWords [] = Unit
AllWords (x ∷ xs) = (x < word_mod) × AllWords xs
