-- ===== src/DMemory/Inv.antt =====
-- The invariant of the data memory, and that every operation of merry/merry_dmemory.c keeps it.
use merry_v.Common.{
  ℕ, zero, suc, ◌+◌, ◌-◌, ◌/◌, ◌%◌, ◌<◌, ◌≡◌, Bool, true, false, some, List, [], ◌∷◌, ◌++◌, arith,
  length, set, get_or, update, length-append, length-set, ltb, leb, take, drop, Bool-cases, inl,
  inr,
}
use merry_v.Block.Endian.{store-byte}
use merry_v.Block.Runs.{blit}
use merry_v.DMemory.{
  DMemory, Page, zero_page, page_at, set_page, add_new_page, uint_mod, page_size, fault,
  deduce_address,
}
use merry_v.DMemory.Access.{read_wide, write_wide, write_byte}
use merry_v.DMemory.Bytes.{runs_out, write_bytes, write_pages}

abbrev pub IsPage : Page → Type 0
IsPage f = (i : ℕ) → f i < 256

abbrev pub AllPages : List Page → Type 0
AllPages [] = Unit
AllPages (p ∷ ps) = IsPage p × AllPages ps

abbrev pub AllBytes : List ℕ → Type 0
AllBytes [] = Unit
AllBytes (x ∷ xs) = (x < 256) × AllBytes xs

-- The count is the number of pages, which an `unsigned int` can hold, and every cell is a byte.
pub record IsValid (m : DMemory) : Type 0 where
  pub counted : length m.pages ≡ m.number_of_pages
  pub few : m.number_of_pages < uint_mod
  pub bytes : AllPages m.pages

pub get_or-IsPage : (ps : List Page) (i : ℕ) → AllPages ps → IsPage (get_or ps i zero_page)
get_or-IsPage [] i h = λ j. omega arith
get_or-IsPage (p ∷ ps) zero h = h.0
get_or-IsPage (p ∷ ps) (suc i) h = get_or-IsPage ps i h.1

set-AllPages : (ps : List Page) (i : ℕ) (f : Page) → AllPages ps → IsPage f → AllPages (set ps i f)
set-AllPages [] i f h k = tt
set-AllPages (p ∷ ps) zero f h k = (k, h.1)
set-AllPages (p ∷ ps) (suc i) f h k = (h.0, set-AllPages ps i f h.1 k)

append-AllPages : (ps : List Page) (f : Page) → AllPages ps → IsPage f → AllPages (ps ++ (f ∷ []))
append-AllPages [] f h k = (k, tt)
append-AllPages (p ∷ ps) f h k = (h.0, append-AllPages ps f h.1 k)

pub set_page-IsValid :
    {m : DMemory} (page : ℕ) (f : Page) → IsValid m → IsPage f → IsValid (set_page m page f)
set_page-IsValid {m} page f v k = record {
  counted = omega (arith, length-set m.pages page f, v.counted);
  few = v.few;
  bytes = set-AllPages m.pages page f v.bytes k;
}

update-IsPage : (f : Page) (i b : ℕ) → IsPage f → b < 256 → IsPage (update f i b)
update-IsPage f i b h lt j = ground (arith, h j)

pub blit-IsPage : (f : Page) (o : ℕ) (xs : List ℕ) → IsPage f → AllBytes xs → IsPage (blit f o xs)
unfolding blit
blit-IsPage f o [] h k = h
blit-IsPage f o (x ∷ xs) h k =
    update-IsPage (blit f (o + 1) xs) o x (blit-IsPage f (o + 1) xs h k.1) k.0

pub take-AllBytes : (n : ℕ) (xs : List ℕ) → AllBytes xs → AllBytes (take n xs)
take-AllBytes zero xs h = tt
take-AllBytes (suc n) [] h = tt
take-AllBytes (suc n) (x ∷ xs) h = (h.0, take-AllBytes n xs h.1)

pub drop-AllBytes : (n : ℕ) (xs : List ℕ) → AllBytes xs → AllBytes (drop n xs)
drop-AllBytes zero xs h = h
drop-AllBytes (suc n) [] h = tt
drop-AllBytes (suc n) (x ∷ xs) h = drop-AllBytes n xs h.1

-- A new page and the writes put bytes on pages; nothing else changes the pages.
module _ {m : DMemory} (v : IsValid m) where
  fault-IsValid : IsValid (fault m)
  fault-IsValid = record { counted = v.counted; few = v.few; bytes = v.bytes }

  pub write_byte-IsValid : (address x : ℕ) → IsValid (write_byte m address x).1
  unfolding write_byte
  write_byte-IsValid address x =
      elim (Bool-cases (leb m.number_of_pages (deduce_address address).page)) [
        | inl out ↦ rw out fault-IsValid
        | inr inside ↦ rw inside (
            set_page-IsValid _ _ v
              (update-IsPage _ _ _ (get_or-IsPage m.pages _ v.bytes) (omega arith)))
      ]

  pub write_wide-IsValid : (last address x : ℕ) → IsValid (write_wide last m address x).1
  unfolding write_wide
  write_wide-IsValid last address x =
      elim (Bool-cases (leb m.number_of_pages (deduce_address address).page)) [
        | inl out ↦ rw out fault-IsValid
        | inr inside ↦ elim (Bool-cases (leb page_size ((deduce_address address).offset + last))) [
          | inl over ↦ rw (inside, over) fault-IsValid
          | inr fits ↦
              rw (inside, fits)
                (set_page-IsValid _ _ v
                  (store-byte (suc last) _ _ x (get_or-IsPage m.pages _ v.bytes)))
        ]
      ]

  pub read_wide-IsValid : (last address : ℕ) → IsValid (read_wide last m address).1
  unfolding read_wide
  read_wide-IsValid last address = ground (arith, v, fault-IsValid)

  pub add_new_page-IsValid :
      (realloc_ok malloc_ok : Bool) (fresh : Page)
      → IsPage fresh
      → m.number_of_pages + 1 < uint_mod
      → IsValid (add_new_page realloc_ok malloc_ok fresh m).1
  unfolding add_new_page
  add_new_page-IsValid true true fresh h lt = record {
    counted = omega (arith, length-append m.pages (fresh ∷ []), v.counted);
    few = omega arith;
    bytes = append-AllPages m.pages fresh v.bytes h;
  }
  add_new_page-IsValid true false fresh h lt = v
  add_new_page-IsValid false malloc_ok fresh h lt = v

pub write_pages-IsValid :
    (n : ℕ) {m : DMemory} (page : ℕ) (rest : List ℕ)
    → IsValid m
    → AllBytes rest
    → IsValid (write_pages m page n rest)
unfolding write_pages
write_pages-IsValid zero {m} page rest v h = elim (Bool-cases (ltb 0 (length rest))) [
  | inl some_left ↦
      rw some_left
        (set_page-IsValid page _ v (blit-IsPage _ 0 rest (get_or-IsPage m.pages page v.bytes) h))
  | inr done ↦ rw done v
]
write_pages-IsValid (suc n) {m} page rest v h =
    write_pages-IsValid n ((page + 1) % uint_mod) (drop page_size rest)
      (set_page-IsValid page _ v (
        blit-IsPage _ 0 (take page_size rest) (get_or-IsPage m.pages page v.bytes)
          (take-AllBytes page_size rest h)))
      (drop-AllBytes page_size rest h)

-- A write of bytes, whether it succeeds or not, keeps a memory valid.
pub write_bytes-IsValid :
    {m : DMemory} (address : ℕ) (array : List ℕ)
    → IsValid m
    → AllBytes array
    → IsValid (write_bytes m address (some array)).1
unfolding write_bytes
write_bytes-IsValid {m} address array v h = elim (Bool-cases (leb m.number_of_pages page)) [
  | inl out ↦ rw out (fault-IsValid v)
  | inr inside ↦ elim (Bool-cases (ltb (length array) dist)) [
    | inl short ↦ rw (inside, short) (put array h)
    | inr long ↦ elim (Bool-cases (runs_out m page (length array - dist))) [
      | inl over ↦ rw (inside, long, over) (fault-IsValid first)
      | inr fits ↦
          rw (inside, long, fits)
            (write_pages-IsValid ((length array - dist) / page_size) ((page + 1) % uint_mod)
              (drop dist array) first (drop-AllBytes dist array h))
    ]
  ]
]
  where
    page : ℕ
    page = (deduce_address address).page

    offset : ℕ
    offset = (deduce_address address).offset

    dist : ℕ
    dist = page_size - offset

    put : (xs : List ℕ) → AllBytes xs → IsValid (set_page m page (blit (page_at m page) offset xs))
    put xs k =
        set_page-IsValid page _ v (blit-IsPage _ offset xs (get_or-IsPage m.pages page v.bytes) k)

    first : IsValid (set_page m page (blit (page_at m page) offset (take dist array)))
    first = put (take dist array) (take-AllBytes dist array h)
