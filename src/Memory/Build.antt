-- ===== src/Memory/Build.antt =====
-- The construction of the instruction memory: `merry_memory_init` and
-- `merry_memory_init_provided` of merry/merry_memory.c, with every outcome of the allocations.
use merry_v.Common.{
  ℕ, zero, suc, ◌+◌, ◌<◌, ◌≡◌, refl, Bool, Option, some, [], ◌∷◌, ◌++◌, arith, length,
  length-append, get_or-append_lt, get_or-append_last, dec_lt, Option-cases, Bool-cases, inl, inr,
}
use mathlib.Core.Path.{subst}
use mathlib.Core.Option.{some-injective}
use merry_v.Memory.{
  Memory, MemPage, zero_page, page_at, init_pages, init, init_provided, allocate_new_mempage,
  allocate_new_mempage_provided, no_pages, error_none,
}

-- The memory has the first `n` pages that `new_page` gives, and no error.
pub record Built (new_page : ℕ → Option MemPage) (n : ℕ) (m : Memory) : Type 0 where
  pub counted : m.number_of_pages ≡ n
  pub complete : length m.pages ≡ n
  pub content : (i : ℕ) → i < n → new_page i ≡ some (page_at m i)
  pub clean : m.error ≡ error_none

-- One page more.
Built-push :
    {new_page : ℕ → Option MemPage} {n : ℕ} {m : Memory} {p : MemPage}
    → Built new_page n m
    → new_page n ≡ some p
    → Built new_page
        (n + 1)
        (record m { pages = m.pages ++ (p ∷ []); number_of_pages = m.number_of_pages + 1 })
Built-push {new_page} {n} {m} {p} b e = record {
  counted = omega (arith, b.counted);
  complete = omega (arith, length-append m.pages (p ∷ []), b.complete);
  content = λ i lt. elim (dec_lt i n) [
    | yes old ↦
        rw (get_or-append_lt m.pages (p ∷ []) i zero_page (omega (arith, b.complete)))
          (b.content i old)
    | no new ↦
        let same : i ≡ n = omega arith in
        rw (get_or-append_last m.pages p zero_page i (omega (arith, b.complete)), same) e
  ];
  clean = b.clean;
}

init_pages-Built :
    (new_page : ℕ → Option MemPage) (n i j : ℕ) (m : Memory) {m' : Memory}
    → Built new_page i m
    → j ≡ i + n
    → init_pages new_page n i m ≡ some m'
    → Built new_page j m'
unfolding init_pages
init_pages-Built new_page zero i j m {m'} b ej e =
    let same : j ≡ i = omega arith in rw same (subst (Built new_page i) (some-injective m m' e) b)
init_pages-Built new_page (suc n) i j m b ej e = elim (Option-cases (new_page i)) [
  | inl fails ↦ absurd (cc (rw (fails, init_pages) at e))
  | inr (p, got) ↦
      init_pages-Built new_page n (i + 1) j _ (Built-push b got) (omega arith)
        (rw (got, init_pages) at e)
]

no_pages-Built : (new_page : ℕ → Option MemPage) → Built new_page 0 no_pages
no_pages-Built new_page = record {
  counted = refl;
  complete = refl;
  content = λ i lt. absurd (omega arith);
  clean = refl;
}

-- `merry_memory_init` gives a memory only with all its pages, each as mmap mapped it.
pub init-Built :
    (struct_ok array_ok : Bool) (page_ok : ℕ → Bool) (fresh : ℕ → MemPage) (n : ℕ) {m : Memory}
    → init struct_ok array_ok page_ok fresh n ≡ some m
    → Built (λ i. allocate_new_mempage (page_ok i) (fresh i)) n m
unfolding init
init-Built struct_ok array_ok page_ok fresh n e = elim (Bool-cases struct_ok) [
  | inr no_struct ↦ absurd (cc (rw no_struct at e))
  | inl a ↦ elim (Bool-cases array_ok) [
    | inr no_array ↦ absurd (cc (rw (a, no_array) at e))
    | inl b ↦ init_pages-Built _ n 0 n no_pages (no_pages-Built _) (omega arith) (rw (a, b) at e)
  ]
]

-- The pages given are the pages of the memory.
pub init_provided-Built :
    (struct_ok array_ok : Bool) (page_ok : ℕ → Bool) (mapped_pages : ℕ → MemPage) (n : ℕ)
    {m : Memory}
    → init_provided struct_ok array_ok page_ok mapped_pages n ≡ some m
    → Built (λ i. allocate_new_mempage_provided (page_ok i) (mapped_pages i)) n m
unfolding init_provided
init_provided-Built struct_ok array_ok page_ok mapped_pages n e = elim (Bool-cases struct_ok) [
  | inr no_struct ↦ absurd (cc (rw no_struct at e))
  | inl a ↦ elim (Bool-cases array_ok) [
    | inr no_array ↦ absurd (cc (rw (a, no_array) at e))
    | inl b ↦ init_pages-Built _ n 0 n no_pages (no_pages-Built _) (omega arith) (rw (a, b) at e)
  ]
]
