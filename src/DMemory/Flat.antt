-- ===== src/DMemory/Flat.antt =====
-- The data memory as the core sees it: one linear block of bytes. The pages of
-- merry/merry_dmemory.c are a detail behind it.
use merry_v.Common.{
  ℕ, ◌+◌, ◌-◌, ◌*◌, ◌/◌, ◌%◌, ◌≤◌, ◌<◌, ◌≡◌, ◌≢◌, ◌⊎◌, inl, inr, sym, ap, ap₂, ◌∙◌, List, arith,
  set, get_or, length, get_or-set_self, get_or-set_ne, dec_lt, ℕ_discrete,
}
use merry_v.Block.Endian.{load, store, load-ext, store-shift, store-frame}
use merry_v.Block.Runs.{blit, blit-frame, blit-inside}
use merry_v.DMemory.{DMemory, Page, zero_page, page_at, set_page, page_size}
use merry_v.DMemory.Inv.{IsValid}

-- The byte at a linear address.
abbrev pub flat : DMemory → ℕ → ℕ
flat m a = page_at m (a / page_size) (a % page_size)

-- The number of bytes.
abbrev pub size : DMemory → ℕ
size m = m.number_of_pages * page_size

-- 2 ^ 52: below it the page number fits an `unsigned int`.
abbrev pub address_limit : ℕ
address_limit = 4503599627370496

-- Inside a page linear addresses go up with the offset.
pub flat-page :
    (m : DMemory) (page offset a : ℕ)
    → a ≡ page * page_size + offset
    → offset < page_size
    → flat m a ≡ page_at m page offset
flat-page m page offset a e h = ap₂ (page_at m) (omega arith) (omega arith)

-- A page replaced is a stretch of the linear memory replaced.
pub flat-set_page_in :
    {m : DMemory} (page : ℕ) (f : Page) (j : ℕ)
    → IsValid m
    → page < m.number_of_pages
    → j / page_size ≡ page
    → flat (set_page m page f) j ≡ f (j % page_size)
flat-set_page_in {m} page f j v lt e =
    ap (λ q. get_or (set m.pages page f) q zero_page (j % page_size)) e
    ∙ ap (λ (g : Page). g (j % page_size))
        (get_or-set_self m.pages page f zero_page (omega (arith, v.counted)))

pub flat-set_page_out :
    (m : DMemory) (page : ℕ) (f : Page) (j : ℕ)
    → j / page_size ≢ page
    → flat (set_page m page f) j ≡ flat m j
flat-set_page_out m page f j ne =
    ap (λ (g : Page). g (j % page_size))
      (get_or-set_ne m.pages page (j / page_size) f zero_page (λ e. ne (sym e)))

-- A number stored inside a page is stored in the linear memory.
pub flat-store :
    {m : DMemory} (k page offset a v j : ℕ)
    → IsValid m
    → page < m.number_of_pages
    → a ≡ page * page_size + offset
    → offset + k ≤ page_size
    → flat (set_page m page (store k (page_at m page) offset v)) j ≡ store k (flat m) a v j
flat-store {m} k page offset a v j valid lt ea fits = elim (ℕ_discrete (j / page_size) page) [
  | no out ↦ flat-set_page_out m page _ j out ∙ sym (store-frame k (flat m) a v j (outside out))
  | yes same ↦ flat-set_page_in page _ j valid lt same ∙ here same
]
  where
    outside : j / page_size ≢ page → (j < a) ⊎ (a + k ≤ j)
    outside out = grind arith

    here :
        j / page_size ≡ page
        → store k (page_at m page) offset v (j % page_size) ≡ store k (flat m) a v j
    here same = elim (dec_lt j a) [
      | yes before ↦
          store-frame k (page_at m page) offset v (j % page_size) (inl (omega arith))
          ∙ sym (flat-page m page (j % page_size) j (omega arith) (omega arith))
          ∙ sym (store-frame k (flat m) a v j (inl before))
      | no from ↦ elim (dec_lt j (a + k)) [
        | yes inside ↦
            store-shift k (page_at m page) (flat m) offset a v (j - a) (j % page_size) j
              (omega arith) (omega arith) (omega arith)
        | no behind ↦
            store-frame k (page_at m page) offset v (j % page_size) (inr (omega arith))
            ∙ sym (flat-page m page (j % page_size) j (omega arith) (omega arith))
            ∙ sym (store-frame k (flat m) a v j (inr (omega arith)))
      ]
    ]

-- A number read inside a page is the number read in the linear memory.
pub flat-load :
    (m : DMemory) (k page offset a : ℕ)
    → a ≡ page * page_size + offset
    → offset + k ≤ page_size
    → load k (page_at m page) offset ≡ load k (flat m) a
flat-load m k page offset a ea fits =
    load-ext k (page_at m page) (flat m) offset a
      λ i x y lt ex ey. sym (flat-page m page x y (omega arith) (omega arith))

-- A run written inside a page is written in the linear memory.
pub flat-blit :
    {m : DMemory} (page offset a : ℕ) (xs : List ℕ) (j : ℕ)
    → IsValid m
    → page < m.number_of_pages
    → a ≡ page * page_size + offset
    → offset + length xs ≤ page_size
    → flat (set_page m page (blit (page_at m page) offset xs)) j ≡ blit (flat m) a xs j
flat-blit {m} page offset a xs j valid lt ea fits = elim (ℕ_discrete (j / page_size) page) [
  | no out ↦ flat-set_page_out m page _ j out ∙ sym (blit-frame (flat m) a xs j (outside out))
  | yes same ↦ flat-set_page_in page _ j valid lt same ∙ here same
]
  where
    outside : j / page_size ≢ page → (j < a) ⊎ (a + length xs ≤ j)
    outside out = grind arith

    here :
        j / page_size ≡ page
        → blit (page_at m page) offset xs (j % page_size) ≡ blit (flat m) a xs j
    here same = elim (dec_lt j a) [
      | yes before ↦
          blit-frame (page_at m page) offset xs (j % page_size) (inl (omega arith))
          ∙ sym (flat-page m page (j % page_size) j (omega arith) (omega arith))
          ∙ sym (blit-frame (flat m) a xs j (inl before))
      | no from ↦ elim (dec_lt j (a + length xs)) [
        | yes inside ↦
            blit-inside (page_at m page) offset xs 0 (j - a) (j % page_size) (omega arith)
              (omega arith)
            ∙ sym (blit-inside (flat m) a xs 0 (j - a) j (omega arith) (omega arith))
        | no behind ↦
            blit-frame (page_at m page) offset xs (j % page_size) (inr (omega arith))
            ∙ sym (flat-page m page (j % page_size) j (omega arith) (omega arith))
            ∙ sym (blit-frame (flat m) a xs j (inr (omega arith)))
      ]
    ]
