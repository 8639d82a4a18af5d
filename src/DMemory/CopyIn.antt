-- ===== src/DMemory/CopyIn.antt =====
-- `merry_dmemory_write_bytes_maybe_over_multiple_pages` of merry/merry_dmemory.c against the linear
-- memory: what it writes when the run fits, and what it has written when it fails.
use merry_v.Common.{
  ℕ, zero, suc, ◌+◌, ◌-◌, ◌*◌, ◌/◌, ◌%◌, ◌≤◌, ◌<◌, ◌≡◌, inl, inr, refl, sym, ap, ◌∙◌, true, false,
  some, List, [], ◌∷◌, arith, leb, ltb, if◌then◌else◌, Bool-cases, length, take, drop, fun_ext,
  length-take, length-drop, take-append-drop,
}
use merry_v.Block.Runs.{slice, blit, slice-blit, blit-append_up}
use merry_v.DMemory.{DMemory, page_at, set_page, page_size, uint_mod, mem_invalid_access}
use merry_v.DMemory.Bytes.{runs_out, write_pages, write_bytes, get_bytes}
use merry_v.DMemory.Inv.{
  IsValid, AllBytes, take-AllBytes, drop-AllBytes, set_page-IsValid, blit-IsPage, get_or-IsPage,
  write_bytes-IsValid,
}
use merry_v.DMemory.Flat.{flat, size, address_limit, flat-blit}
use merry_v.DMemory.Copies.{run_fits, get_bytes-linear}

blit-nil : (f : ℕ → ℕ) (o : ℕ) (xs : List ℕ) → length xs ≡ 0 → blit f o xs ≡ f
unfolding blit
blit-nil f o [] e = refl
blit-nil f o (x ∷ xs) e = absurd (omega arith)

put-IsValid :
    {m : DMemory} (page offset : ℕ) (xs : List ℕ)
    → IsValid m
    → AllBytes xs
    → IsValid (set_page m page (blit (page_at m page) offset xs))
put-IsValid {m} page offset xs v h =
    set_page-IsValid page _ v (blit-IsPage _ offset xs (get_or-IsPage m.pages page v.bytes) h)

-- The start of a list written inside a page, and then the rest behind it, is the list written.
two_steps :
    {m : DMemory} (page offset a k : ℕ) (rest : List ℕ) (p j : ℕ)
    → IsValid m
    → page < m.number_of_pages
    → a ≡ page * page_size + offset
    → offset + k ≤ page_size
    → k ≤ length rest
    → p ≡ a + k
    → blit (flat (set_page m page (blit (page_at m page) offset (take k rest)))) p (drop k rest) j
      ≡ blit (flat m) a rest j
two_steps {m} page offset a k rest p j v lt ea fits le ep =
    ap (λ (f : ℕ → ℕ). f j)
      (ap (λ g. blit g p (drop k rest))
          (fun_ext λ i.
            flat-blit page offset a (take k rest) i v lt ea (omega (arith, length-take k rest)))
        ∙ sym (
            blit-append_up (flat m) a (take k rest) (drop k rest) p
              (omega (arith, length-take k rest)))
        ∙ ap (blit (flat m) a) (take-append-drop k rest))

-- The loop over whole pages and the rest write one run.
write_pages-blit :
    (n : ℕ) {m : DMemory} (page a : ℕ) (rest : List ℕ) (remaining : ℕ)
    → IsValid m
    → AllBytes rest
    → a ≡ page * page_size
    → length rest ≡ n * page_size + remaining
    → remaining < page_size
    → page + n + (if ltb 0 remaining then 1 else 0) ≤ m.number_of_pages
    → ((j : ℕ) → flat (write_pages m page n rest) j ≡ blit (flat m) a rest j)
      × ((write_pages m page n rest).number_of_pages ≡ m.number_of_pages)
      × ((write_pages m page n rest).error ≡ m.error)
unfolding write_pages
write_pages-blit zero {m} page a rest remaining v h ea el lt few =
    elim (Bool-cases (ltb 0 (length rest))) [
      | inl more ↦
          rw more (
            λ j. flat-blit page 0 a rest j v (ground arith) (omega arith) (omega arith),
            refl,
            refl,
          )
      | inr done ↦ rw done (
          (
            λ j. ap (λ (f : ℕ → ℕ). f j) (sym (blit-nil (flat m) a rest (ground arith))),
            refl,
            refl,
          ))
    ]
write_pages-blit (suc n) {m} page a rest remaining v h ea el lt few =
    let m' = set_page m page (blit (page_at m page) 0 (take page_size rest)) in
    let (later, pages, error) =
      write_pages-blit n {m = m'} ((page + 1) % uint_mod) (a + page_size) (drop page_size rest)
        remaining (put-IsValid page 0 (take page_size rest) v (take-AllBytes page_size rest h))
        (drop-AllBytes page_size rest h) (omega arith) (omega (arith, length-drop page_size rest))
        lt (omega arith) in
    (
      λ j.
          later j
          ∙ two_steps page 0 a page_size rest (a + page_size) j v (omega arith) (omega arith)
              (omega arith) (omega arith) refl,
      pages,
      error,
    )

-- In a valid memory a write of bytes below 2 ^ 52 whose whole run exists succeeds, puts exactly
-- the array into the linear memory, on however many pages, and leaves every other byte, the
-- page count and the error.
pub write_bytes-fits :
    {m : DMemory} (a : ℕ) (array : List ℕ)
    → IsValid m
    → AllBytes array
    → a < address_limit
    → run_fits m a (length array) ≡ true
    → let (done, m') = write_bytes m a (some array) in
      (done ≡ true)
      × ((j : ℕ) → flat m' j ≡ blit (flat m) a array j)
      × (m'.number_of_pages ≡ m.number_of_pages)
      × (m'.error ≡ m.error)
unfolding write_bytes
write_bytes-fits {m} a array v h lt fit = elim (Bool-cases (ltb (length array) dist)) [
  | inl short ↦
      rw (inside, short)
        (
          refl,
          λ j. flat-blit page offset a array j v (ground arith) (omega arith) (ground arith),
          refl,
          refl,
        )
  | inr long ↦
      let over : runs_out m page left ≡ false = ground arith in
      let (later, pages, error) =
        write_pages-blit (left / page_size) {m = first} ((page + 1) % uint_mod) (a + dist)
          (drop dist array) (left % page_size)
          (put-IsValid page offset (take dist array) v (take-AllBytes dist array h))
          (drop-AllBytes dist array h) (ground arith) (omega (arith, length-drop dist array))
          (omega arith) (ground arith) in
      rw (inside, long, over)
        (
          refl,
          λ j.
              later j
              ∙ two_steps page offset a dist array (a + dist) j v (ground arith) (omega arith)
                  (omega arith) (ground arith) refl,
          pages,
          error,
        )
]
  where
    page : ℕ
    page = a / page_size % uint_mod

    offset : ℕ
    offset = a % page_size % uint_mod

    dist : ℕ
    dist = page_size - offset

    left : ℕ
    left = length array - dist

    -- The memory after the copy into the first page.
    first : DMemory
    first = set_page m page (blit (page_at m page) offset (take dist array))

    inside : leb m.number_of_pages page ≡ false
    inside = ground arith

-- In a valid memory a write of bytes below 2 ^ 52 that starts inside the memory and runs out of
-- it fails and sets the error, and has changed the bytes up to the end of the first page all
-- the same.
pub write_bytes-overrun :
    {m : DMemory} (a : ℕ) (array : List ℕ)
    → IsValid m
    → a < address_limit
    → a < size m
    → run_fits m a (length array) ≡ false
    → let (done, m') = write_bytes m a (some array) in
      (done ≡ false)
      × ((j : ℕ) → flat m' j ≡ blit (flat m) a (take (page_size - a % page_size) array) j)
      × (m'.error ≡ mem_invalid_access)
unfolding write_bytes
write_bytes-overrun {m} a array v lt here no_fit =
    let page = a / page_size % uint_mod in
    let offset = a % page_size % uint_mod in
    let inside : leb m.number_of_pages page ≡ false = ground arith in
    let long : ltb (length array) (page_size - offset) ≡ false = ground arith in
    let over : runs_out m page (length array - (page_size - offset)) ≡ true = ground arith in
    let dist : page_size - offset ≡ page_size - a % page_size = omega arith in
    rw (inside, long, over)
      (
        refl,
        λ j.
            flat-blit page offset a (take (page_size - offset) array) j v (omega arith)
              (omega arith) (omega (arith, length-take (page_size - offset) array))
            ∙ ap (λ k. blit (flat m) a (take k array) j) dist,
        refl,
      )

-- In a valid memory, what `merry_dmemory_write_bytes_maybe_over_multiple_pages` wrote below 2 ^
-- 52, where the whole run exists, is what `merry_dmemory_get_bytes_maybe_over_multiple_pages`
-- then returns.
pub get_bytes-write_bytes :
    {m : DMemory} (a : ℕ) (array : List ℕ)
    → IsValid m
    → AllBytes array
    → a < address_limit
    → run_fits m a (length array) ≡ true
    → let m' = (write_bytes m a (some array)).1 in
      get_bytes true m' a (length array) ≡ (some array, m')
get_bytes-write_bytes {m} a array v h lt fit =
    get_bytes-linear a (length array) (write_bytes-IsValid a array v h) lt ∙ rw (still, copied) refl
  where
    m' : DMemory
    m' = (write_bytes m a (some array)).1

    written :
        ((write_bytes m a (some array)).0 ≡ true)
        × ((j : ℕ) → flat m' j ≡ blit (flat m) a array j)
        × (m'.number_of_pages ≡ m.number_of_pages)
        × (m'.error ≡ m.error)
    written = write_bytes-fits a array v h lt fit

    still : run_fits m' a (length array) ≡ true
    still = rw (written.2) fit

    copied : slice (flat m') a (length array) ≡ array
    copied = ap (λ f. slice f a (length array)) (fun_ext written.1) ∙ slice-blit (flat m) a array
