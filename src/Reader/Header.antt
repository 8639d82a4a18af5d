-- ===== src/Reader/Header.antt =====
-- What `merry_reader_read_header` of merry/merry_nreader.c makes of a header that a writer produced.
use merry_v.Common.{
  ℕ, zero, suc, ◌+◌, ◌*◌, ◌/◌, ◌%◌, ◌≤◌, ◌<◌, ◌≡◌, refl, sym, ap, ◌∙◌, true, false, none, some,
  List, ◌++◌, arith, ◌==◌, get_or, drop, take, ltb, if◌then◌else◌, wrap, word_mod,
}
use native.Mathlib.Nat.{div-le_self, div-div-eq-div-mul}
use merry_v.Block.Endian.{bound}
use merry_v.Block.Runs.{slice, blit}
use merry_v.Reader.{Reader, Host, shift_in, get_number, read_header, check_header, parse_header}
use merry_v.Reader.Format.{big_endian, Lengths, encode_header}

-- The bytes of a number, shifted in behind what stands above them, give the number.
pub shift_in-big_endian :
    (n : ℕ) (arr : ℕ → ℕ) (i v : ℕ)
    → v < word_mod
    → slice arr i n ≡ big_endian n v
    → shift_in n arr i (v / bound n) ≡ v
unfolding shift_in slice
shift_in-big_endian zero arr i v lt e = omega arith
shift_in-big_endian (suc n) arr i v lt e =
    let head : arr i ≡ v / bound n % 256 = ap (λ l. get_or l 0 0) e in
    let split : v / (256 * bound n) ≡ v / bound n / 256 =
      ap (λ d. v / d) (omega arith) ∙ sym (div-div-eq-div-mul v (bound n) 256) in
    let small : v / bound n ≤ v = div-le_self v (bound n) in
    let next : wrap (v / (256 * bound n) * 256) + arr i ≡ v / bound n = omega arith in
    ap (shift_in n arr (i + 1)) next ∙ shift_in-big_endian n arr (i + 1) v lt (ap (drop 1) e)

pub get_number-big_endian :
    (arr : ℕ → ℕ) (i v : ℕ) → v < word_mod → slice arr i 8 ≡ big_endian 8 v → get_number arr i ≡ v
get_number-big_endian arr i v lt e =
    ap (shift_in 8 arr i) (omega arith) ∙ shift_in-big_endian 8 arr i v lt e

-- A header with these parts passes or fails by the sum of its lengths.
check_header-parts :
    (header : ℕ → ℕ) (l : Lengths) (r : Reader)
    → header 0 ≡ 77
    → (if header 7 == 1 then true else r.ste_flag) ≡ l.ste
    → (if header 6 == 1 then true else r.de_flag) ≡ l.de
    → get_number header 8 ≡ l.inst
    → get_number header 16 ≡ l.eat
    → get_number header 24 ≡ l.sst
    → get_number header 32 ≡ l.st
    → wrap (l.inst + l.eat + l.sst + l.st) ≡ l.inst + l.eat + l.sst + l.st
    → check_header header r ≡ (
        if ltb r.flen (l.inst + l.eat + l.sst + l.st)
        then none
        else some (record r {
          ste_flag = l.ste;
          de_flag = l.de;
          inst_section_len = l.inst;
          eat_len = l.eat;
          sst_len = l.sst;
          st_len = l.st;
        }))
unfolding check_header parse_header
check_header-parts header l r m ste de inst eat sst st sum =
    rw (m, ste, de, inst, eat, sst, st, sum) refl

pub read_header-encode :
    (h : Host) (l : Lengths) (rest : List ℕ) (r : Reader)
    → r.f ≡ encode_header l ++ rest
    → r.ste_flag ≡ false
    → r.de_flag ≡ false
    → l.inst + l.eat + l.sst + l.st < word_mod
    → read_header h r ≡ (
        if ltb r.flen (l.inst + l.eat + l.sst + l.st)
        then none
        else some (record r {
          f = rest;
          ste_flag = l.ste;
          de_flag = l.de;
          inst_section_len = l.inst;
          eat_len = l.eat;
          sst_len = l.sst;
          st_len = l.st;
        }))
unfolding read_header blit slice
read_header-encode h l rest r e ste de lt =
    let file = encode_header l ++ rest in
    let header = blit h.left 0 (take 40 file) in
    ap (λ f. check_header (blit h.left 0 (take 40 f)) (record r { f = drop 40 f })) e
    ∙ check_header-parts header l (record r { f = rest }) refl (ground arith) (ground arith)
        (get_number-big_endian header 8 l.inst (omega arith) refl)
        (get_number-big_endian header 16 l.eat (omega arith) refl)
        (get_number-big_endian header 24 l.sst (omega arith) refl)
        (get_number-big_endian header 32 l.st (omega arith) refl) (omega arith)
