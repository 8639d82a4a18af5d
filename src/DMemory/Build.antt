-- ===== src/DMemory/Build.antt =====
-- The construction of the data memory: `merry_dmemory_init`, `merry_dmemory_init_provided` and
-- `merry_dmemory_add_new_page` of merry/merry_dmemory.c, with every outcome of the allocations.
use merry_v.Common.{
  if◌then◌else◌, ◌==◌, ◌≤◌, ℕ, zero, suc, ◌+◌, ◌<◌, ◌≡◌, refl, Bool, true, false, Option, some, [],
  ◌∷◌, ◌++◌, arith, length, length-append, get_or-append_lt, get_or-append_last, dec_lt,
  Option-cases, Bool-cases, inl, inr, sym, ap, ◌&&◌,
}
use mathlib.Core.Path.{subst}
use mathlib.Core.Option.{some-injective}
use merry_v.DMemory.{
  DMemory, Page, Host, zero_page, page_at, init_pages, init, init_provided, add_new_page,
  allocate_new_mempage, allocate_new_mempage_provided, no_pages, error_none,
}
use merry_v.DMemory.Inv.{IsValid}

-- The memory has the first `n` pages that `new_page` gives, and no error.
pub record Built (new_page : ℕ → Option Page) (n : ℕ) (m : DMemory) : Type 0 where
  pub counted : m.number_of_pages ≡ n
  pub complete : length m.pages ≡ n
  pub content : (i : ℕ) → i < n → new_page i ≡ some (page_at m i)
  pub clean : m.error ≡ error_none

-- One page more.
Built-push :
    {new_page : ℕ → Option Page} {n : ℕ} {m : DMemory} {p : Page}
    → Built new_page n m
    → new_page n ≡ some p
    → Built new_page
        (n + 1)
        (record m { pages = m.pages ++ (p ∷ []); number_of_pages = m.number_of_pages + 1 })
Built-push {new_page} {n} {m} {p} b e = record {
  counted = omega (arith, b.counted);
  complete = omega (arith, length-append m.pages (p ∷ []), b.complete);
  content = λ i lt. elim (dec_lt i n) [
    | yes old ↦
        rw (get_or-append_lt m.pages (p ∷ []) i zero_page (omega (arith, b.complete)))
          (b.content i old)
    | no new ↦
        let same : i ≡ n = omega arith in
        rw (get_or-append_last m.pages p zero_page i (omega (arith, b.complete)), same) e
  ];
  clean = b.clean;
}

init_pages-Built :
    (new_page : ℕ → Option Page) (n i j : ℕ) (m : DMemory) {m' : DMemory}
    → Built new_page i m
    → j ≡ i + n
    → init_pages new_page n i m ≡ some m'
    → Built new_page j m'
unfolding init_pages
init_pages-Built new_page zero i j m {m'} b ej e =
    let same : j ≡ i = omega arith in rw same (subst (Built new_page i) (some-injective m m' e) b)
init_pages-Built new_page (suc n) i j m b ej e = elim (Option-cases (new_page i)) [
  | inl fails ↦ absurd (cc (rw (fails, init_pages) at e))
  | inr (p, got) ↦
      init_pages-Built new_page n (i + 1) j _ (Built-push b got) (omega arith)
        (rw (got, init_pages) at e)
]

no_pages-Built : (new_page : ℕ → Option Page) → Built new_page 0 no_pages
no_pages-Built new_page = record {
  counted = refl;
  complete = refl;
  content = λ i lt. absurd (omega arith);
  clean = refl;
}

-- If every allocation succeeds the loop succeeds.
init_pages_total :
    (new_page : ℕ → Option Page) (n i : ℕ) (m : DMemory)
    → ((j : ℕ) → (p : Page) × (new_page j ≡ some p))
    → (m' : DMemory) × (init_pages new_page n i m ≡ some m')
unfolding init_pages
init_pages_total new_page zero i m h = (m, refl)
init_pages_total new_page (suc n) i m h =
    let (p, got) = h i in
    let (m', e) =
      init_pages_total new_page n (i + 1)
        (record m { pages = m.pages ++ (p ∷ []); number_of_pages = m.number_of_pages + 1 }) h in
    (m', rw (got, init_pages) e)

-- `merry_dmemory_init` gives a memory only with all its pages, each as mmap mapped it.
pub init-Built :
    (h : Host) (n : ℕ) {m : DMemory}
    → init h n ≡ some m
    → Built (λ i. allocate_new_mempage (h.page_ok i) (h.fresh i)) n m
unfolding init
init-Built h n e = elim (Bool-cases h.struct_ok) [
  | inr no_struct ↦ absurd (cc (rw no_struct at e))
  | inl a ↦ elim (Bool-cases h.array_ok) [
    | inr no_array ↦ absurd (cc (rw (a, no_array) at e))
    | inl b ↦ init_pages-Built _ n 0 n no_pages (no_pages-Built _) (omega arith) (rw (a, b) at e)
  ]
]

-- The pages given are the pages of the memory.
pub init_provided-Built :
    (h : Host) (mapped_pages : ℕ → Page) (n : ℕ) {m : DMemory}
    → init_provided h mapped_pages n ≡ some m
    → Built (λ i. allocate_new_mempage_provided (h.page_ok i) (mapped_pages i)) n m
unfolding init_provided
init_provided-Built h mapped_pages n e = elim (Bool-cases h.struct_ok) [
  | inr no_struct ↦ absurd (cc (rw no_struct at e))
  | inl a ↦ elim (Bool-cases h.array_ok) [
    | inr no_array ↦ absurd (cc (rw (a, no_array) at e))
    | inl b ↦ init_pages-Built _ n 0 n no_pages (no_pages-Built _) (omega arith) (rw (a, b) at e)
  ]
]

-- If the host runs out of nothing, `merry_dmemory_init` succeeds, and the memory has `n` pages
-- that hold what mmap mapped.
pub init_total :
    (h : Host) (n : ℕ)
    → h.struct_ok ≡ true
    → h.array_ok ≡ true
    → ((i : ℕ) → h.page_ok i ≡ true)
    → (m : DMemory) × (init h n ≡ some m)
      × (m.number_of_pages ≡ n)
      × ((i : ℕ) → i < n → page_at m i ≡ h.fresh i)
unfolding init
init_total h n a b each =
    let new_page = λ (i : ℕ). allocate_new_mempage (h.page_ok i) (h.fresh i) in
    let (m, e) =
      init_pages_total new_page n 0 no_pages
        (λ j. (h.fresh j, ap (λ t. allocate_new_mempage t (h.fresh j)) (each j))) in
    let built =
      init_pages-Built new_page n 0 n no_pages (no_pages-Built new_page) (omega arith) e in
    (
      m,
      rw (a, b) e,
      built.counted,
      λ i lt. sym (some-injective _ _ (rw (each i) at (built.content i lt))),
    )

-- If nothing fails, `merry_dmemory_add_new_page` makes a valid memory one page longer: the new
-- last page is the mapped one, and every page before it is as it was.
pub add_new_page-pages :
    (fresh : Page) {m : DMemory} (i : ℕ)
    → IsValid m
    → i ≤ m.number_of_pages
    → let m' = (add_new_page true true fresh m).1 in
      (m'.number_of_pages ≡ m.number_of_pages + 1)
      × (page_at m' i ≡ (if i == m.number_of_pages then fresh else page_at m i))
unfolding add_new_page
add_new_page-pages fresh {m} i v le = elim (Bool-cases (i == m.number_of_pages)) [
  | inl last ↦
      rw last (refl, get_or-append_last m.pages fresh zero_page i (ground (arith, v.counted)))
  | inr old ↦
      rw old (refl, get_or-append_lt m.pages (fresh ∷ []) i zero_page (ground (arith, v.counted)))
]

-- If realloc or malloc fails the memory stays as it was.
pub add_new_page-fails :
    (realloc_ok malloc_ok : Bool) (fresh : Page) (m : DMemory)
    → (realloc_ok && malloc_ok) ≡ false
    → add_new_page realloc_ok malloc_ok fresh m ≡ (false, m)
unfolding add_new_page
add_new_page-fails true true fresh m h = absurd (cc h)
add_new_page-fails true false fresh m h = refl
add_new_page-fails false malloc_ok fresh m h = refl
