-- ===== src/DMemory/Copies.antt =====
-- The copies over several pages of merry/merry_dmemory.c, against the linear memory.
use merry_v.Common.{
  ℕ, zero, suc, ◌+◌, ◌-◌, ◌*◌, ◌/◌, ◌%◌, ◌≤◌, ◌<◌, ◌≡◌, inl, inr, refl, sym, ap, ap₂, ◌∙◌, Bool,
  true, false, none, some, [], ◌++◌, arith, leb, ltb, ◌&&◌, if◌then◌else◌, Bool-cases,
}
use merry_v.Block.Runs.{slice, slice-ext, slice-append}
use merry_v.DMemory.{DMemory, page_at, page_size, uint_mod, fault}
use merry_v.DMemory.Bytes.{runs_out, read_pages, get_bytes}
use merry_v.DMemory.Inv.{IsValid}
use merry_v.DMemory.Flat.{flat, size, address_limit, flat-page}

-- The `length` bytes at `a` exist, and so does the byte at `a`.
abbrev pub run_fits : DMemory → ℕ → ℕ → Bool
run_fits m a length = ltb a (size m) && leb (a + length) (size m)

-- A run inside one page is a run of the linear memory.
slice-page :
    (m : DMemory) (page offset a n : ℕ)
    → a ≡ page * page_size + offset
    → offset + n ≤ page_size
    → slice (page_at m page) offset n ≡ slice (flat m) a n
slice-page m page offset a n e h =
    slice-ext (page_at m page) (flat m) offset a n
      λ i x y lt ex ey. sym (flat-page m page x y (omega arith) (omega arith))

slice-zero : (f : ℕ → ℕ) (o n : ℕ) → n ≡ 0 → slice f o n ≡ []
unfolding slice
slice-zero f o zero e = refl
slice-zero f o (suc n) e = absurd (omega arith)

-- The loop over whole pages and the rest read one run.
pub read_pages-slice :
    (m : DMemory) (n page remaining a length : ℕ)
    → a ≡ page * page_size
    → length ≡ n * page_size + remaining
    → remaining < page_size
    → page + n < uint_mod
    → read_pages m page n remaining ≡ slice (flat m) a length
unfolding read_pages
read_pages-slice m zero page remaining a length ea el lt few = elim (Bool-cases (ltb 0 remaining)) [
  | inl more ↦ rw more (
      slice-page m page 0 a remaining (omega arith) (omega arith)
      ∙ ap (slice (flat m) a) (omega arith))
  | inr done ↦ rw done (sym (slice-zero (flat m) a length (ground arith)))
]
read_pages-slice m (suc n) page remaining a length ea el lt few =
    ap₂ ◌++◌ (slice-page m page 0 a page_size (omega arith) (omega arith)) (
      read_pages-slice m n ((page + 1) % uint_mod) remaining (a + page_size)
        (n * page_size + remaining) (omega arith) refl lt (omega arith))
    ∙ sym (
        slice-append (flat m) a page_size (n * page_size + remaining) length (a + page_size)
          (omega arith) refl)

-- In a valid memory and below 2 ^ 52 the bytes returned are those of the linear memory from the
-- address on, if all of them exist, on however many pages; otherwise the result is NULL and the
-- error is set. The buffer for the result is assumed to be allocated.
pub get_bytes-linear :
    {m : DMemory} (a length : ℕ)
    → IsValid m
    → a < address_limit
    → get_bytes true m a length
      ≡ (if run_fits m a length then (some (slice (flat m) a length), m) else (none, fault m))
unfolding get_bytes
get_bytes-linear {m} a length v lt = elim (Bool-cases (leb m.number_of_pages page)) [
  | inl out ↦ let no_fit : run_fits m a length ≡ false = ground arith in rw (out, no_fit) refl
  | inr inside ↦ elim (Bool-cases (ltb length dist)) [
    | inl short ↦
        let fit : run_fits m a length ≡ true = ground arith in
        rw (inside, short, fit)
          (ap (λ x. (some x, m)) (slice-page m page offset a length (omega arith) (ground arith)))
    | inr long ↦ elim (Bool-cases (runs_out m page left)) [
      | inl over ↦
          let no_fit : run_fits m a length ≡ false = over_lem long over in
          rw (inside, long, over, no_fit) refl
      | inr fits ↦
          let fit : run_fits m a length ≡ true = fits_lem long fits in
          rw (inside, long, fits, fit) (ap (λ x. (some x, m)) (whole long fits))
    ]
  ]
]
  where
    page : ℕ
    page = a / page_size % uint_mod

    offset : ℕ
    offset = a % page_size % uint_mod

    dist : ℕ
    dist = page_size - offset

    left : ℕ
    left = length - dist

    over_lem : ltb length dist ≡ false → runs_out m page left ≡ true → run_fits m a length ≡ false
    over_lem long over = ground arith

    fits_lem : ltb length dist ≡ false → runs_out m page left ≡ false → run_fits m a length ≡ true
    fits_lem long fits = ground arith

    whole :
        ltb length dist ≡ false
        → runs_out m page left ≡ false
        → slice (page_at m page) offset dist
            ++ read_pages m ((page + 1) % uint_mod) (left / page_size) (left % page_size)
          ≡ slice (flat m) a length
    whole long fits =
        ap₂ ◌++◌ (slice-page m page offset a dist (omega arith) (omega arith)) (
          read_pages-slice m (left / page_size) ((page + 1) % uint_mod) (left % page_size)
            (a + dist) left (ground arith) (omega arith) (omega arith) (ground arith))
        ∙ sym (slice-append (flat m) a dist left length (a + dist) (ground arith) refl)
