-- ===== src/Memory/Laws.antt =====
-- The instruction memory of merry/merry_memory.c against a linear memory of qwords.
use merry_v.Common.{
  ℕ, ◌+◌, ◌*◌, ◌/◌, ◌%◌, ◌<◌, ◌≡◌, refl, ap, ◌∙◌, true, false, none, some, arith, leb, ltb, ◌==◌,
  if◌then◌else◌, Bool-cases, inl, inr, length, set, get_or, update, get_or-set_self, get_or-set_ne,
  ℕ_discrete,
}
use merry_v.Memory.{
  Memory, MemPage, zero_page, page_at, qs_per_page, uint_mod, fault, read, write, get_address,
}

-- The count is the number of pages, and an `unsigned int` can hold it.
pub record IsValid (m : Memory) : Type 0 where
  pub counted : length m.pages ≡ m.number_of_pages
  pub few : m.number_of_pages < uint_mod

-- The qword at a linear address, and the number of qwords.
abbrev pub flat : Memory → ℕ → ℕ
flat m a = page_at m (a / qs_per_page) (a % qs_per_page)

abbrev pub size : Memory → ℕ
size m = m.number_of_pages * qs_per_page

-- 2 ^ 49: below it the page number fits an `unsigned int`.
abbrev pub address_limit : ℕ
address_limit = 562949953421312

-- Below 2 ^ 49 a read returns the qword at the linear address, and fails with an error exactly
-- if there is none.
pub read_inst-linear :
    (m : Memory) (a : ℕ)
    → a < address_limit
    → read m a ≡ (if ltb a (size m) then (some (flat m a), m) else (none, fault m))
unfolding read
read_inst-linear m a lt = elim (Bool-cases (ltb a (size m))) [
  | inl inside ↦
      let page_ok : leb m.number_of_pages (a / qs_per_page % uint_mod) ≡ false = ground arith in
      let page : a / qs_per_page % uint_mod ≡ a / qs_per_page = omega arith in
      let offset : a % qs_per_page % uint_mod ≡ a % qs_per_page = omega arith in
      rw (inside, page_ok, page, offset) refl
  | inr outside ↦
      let page_bad : leb m.number_of_pages (a / qs_per_page % uint_mod) ≡ true = ground arith in
      rw (outside, page_bad) refl
]

-- In a valid instruction memory a write below 2 ^ 49 to an address that exists succeeds,
-- changes the qword there and no other, and keeps the number of pages.
pub write-linear :
    {m : Memory} (a v j : ℕ)
    → IsValid m
    → a < address_limit
    → ltb a (size m) ≡ true
    → ((write m a v).0 ≡ true)
      × (flat (write m a v).1 j ≡ (if a == j then v else flat m j))
      × ((write m a v).1.number_of_pages ≡ m.number_of_pages)
unfolding write
write-linear {m} a v j valid lt inside =
    let page_ok : leb m.number_of_pages (a / qs_per_page % uint_mod) ≡ false = ground arith in
    let page : a / qs_per_page % uint_mod ≡ a / qs_per_page = omega arith in
    let offset : a % qs_per_page % uint_mod ≡ a % qs_per_page = omega arith in
    rw (page_ok, page, offset) (refl, there, refl)
  where
    f : MemPage
    f = update (page_at m (a / qs_per_page)) (a % qs_per_page) v

    there :
        get_or (set m.pages (a / qs_per_page) f) (j / qs_per_page) zero_page (j % qs_per_page)
        ≡ (if a == j then v else flat m j)
    there = elim (ℕ_discrete (a / qs_per_page) (j / qs_per_page)) [
      | yes same ↦
          ap (λ q. get_or (set m.pages q f) (j / qs_per_page) zero_page (j % qs_per_page)) same
          ∙ ap (λ (g : MemPage). g (j % qs_per_page))
              (get_or-set_self m.pages (j / qs_per_page) f zero_page
                (ground (arith, valid.counted)))
          ∙ ground arith
      | no apart ↦
          ap (λ (g : MemPage). g (j % qs_per_page))
            (get_or-set_ne m.pages (a / qs_per_page) (j / qs_per_page) f zero_page apart)
          ∙ ground arith
    ]

-- 2 ^ 49 further on the same qword is addressed, since the page is an `unsigned int`.
pub read-alias : (m : Memory) (a : ℕ) → read m (a + address_limit) ≡ read m a
unfolding read
read-alias m a =
    let page : (a + address_limit) / qs_per_page % uint_mod ≡ a / qs_per_page % uint_mod =
      omega arith in
    let offset : (a + address_limit) % qs_per_page % uint_mod ≡ a % qs_per_page % uint_mod =
      omega arith in
    rw (page, offset) refl

-- What is written is read back.
pub read-write :
    {m : Memory} (a v : ℕ)
    → IsValid m
    → a < address_limit
    → ltb a (size m) ≡ true
    → read (write m a v).1 a ≡ (some v, (write m a v).1)
read-write {m} a v valid lt inside =
    let (ok, content, pages) = write-linear a v a valid lt inside in
    let there : flat (write m a v).1 a ≡ v = ground (arith, content) in
    let still : ltb a (size (write m a v).1) ≡ true = rw pages inside in
    read_inst-linear (write m a v).1 a lt ∙ rw (still, there) refl

-- The address returned is the page and offset of the qword, and NULL comes back with an error
-- exactly where a read fails.
pub get_address-linear :
    (m : Memory) (a : ℕ)
    → a < address_limit
    → get_address m a ≡ (
        if ltb a (size m)
        then (some (record { page = a / qs_per_page; offset = a % qs_per_page }), m)
        else (none, fault m))
unfolding get_address
get_address-linear m a lt = ground arith
