-- ===== src/Block/Runs.antt =====
-- Runs of cells: what `memcpy` copies out of a block and into one.
use merry_v.Common.{
  ℕ, zero, suc, ◌+◌, ◌≤◌, ◌<◌, ◌≡◌, refl, ap, ap₂, ◌∙◌, List, [], ◌∷◌, ◌++◌, arith, update, length,
  get_or, update_self, update_ne, ◌⊎◌, inl, inr, ◌≢◌, fun_ext,
}

-- The `n` cells from offset `o` on.
unfoldable pub slice {ℓ} : {A : Type ℓ} → (ℕ → A) → ℕ → ℕ → List A
slice f o zero = []
slice f o (suc n) = f o ∷ slice f (o + 1) n

-- The block with the list written from offset `o` on.
unfoldable pub blit {ℓ} : {A : Type ℓ} → (ℕ → A) → ℕ → List A → ℕ → A
blit f o [] = f
blit f o (x ∷ xs) = update (blit f (o + 1) xs) o x

module _ {ℓ} {A : Type ℓ} where
  pub length-slice : (f : ℕ → A) (o n : ℕ) → length (slice f o n) ≡ n
  unfolding slice
  length-slice f o zero = refl
  length-slice f o (suc n) = ap suc (length-slice f (o + 1) n)

  -- A run depends only on its own cells.
  pub slice-ext :
      (f g : ℕ → A) (o p n : ℕ)
      → ((i x y : ℕ) → i < n → x ≡ o + i → y ≡ p + i → f x ≡ g y)
      → slice f o n ≡ slice g p n
  unfolding slice
  slice-ext f g o p zero h = refl
  slice-ext f g o p (suc n) h = ap₂ ◌∷◌ (h 0 o p (omega arith) (omega arith) (omega arith)) (
      slice-ext f g (o + 1) (p + 1) n
        λ i x y lt ex ey. h (i + 1) x y (omega arith) (omega arith) (omega arith))

  -- A run of `a + b` cells is a run of `a` and the run of `b` behind it.
  pub slice-append :
      (f : ℕ → A) (o a b c d : ℕ) → c ≡ a + b → d ≡ o + a → slice f o c ≡ slice f o a ++ slice f d b
  unfolding slice
  slice-append f o zero b c d ec ed =
      let ec' : c ≡ b = omega arith in let ed' : d ≡ o = omega arith in rw (ec', ed')
  slice-append f o (suc a) b zero d ec ed = absurd (omega arith)
  slice-append f o (suc a) b (suc c) d ec ed =
      ap (λ t. f o ∷ t) (slice-append f (o + 1) a b c d (omega arith) (omega arith))

  -- Outside its run a write changes nothing.
  pub blit-frame :
      (f : ℕ → A) (o : ℕ) (xs : List A) (j : ℕ)
      → (j < o) ⊎ (o + length xs ≤ j)
      → blit f o xs j ≡ f j
  unfolding blit
  blit-frame f o [] j h = refl
  blit-frame f o (x ∷ xs) j (inl h) =
      update_ne (blit f (o + 1) xs) o x j (omega arith)
      ∙ blit-frame f (o + 1) xs j (inl (omega arith))
  blit-frame f o (x ∷ xs) j (inr h) =
      update_ne (blit f (o + 1) xs) o x j (omega arith)
      ∙ blit-frame f (o + 1) xs j (inr (omega arith))

  -- Inside its run, a write puts the list's elements.
  pub blit-inside :
      (f : ℕ → A) (o : ℕ) (xs : List A) (d : A) (i j : ℕ)
      → i < length xs
      → j ≡ o + i
      → blit f o xs j ≡ get_or xs i d
  unfolding blit
  blit-inside f o [] d i j h e = absurd (omega arith)
  blit-inside f o (x ∷ xs) d zero j h e =
      let e' : o ≡ j = omega arith in rw (← e') (update_self (blit f (o + 1) xs) o x)
  blit-inside f o (x ∷ xs) d (suc i) j h e =
      update_ne (blit f (o + 1) xs) o x j (omega arith)
      ∙ blit-inside f (o + 1) xs d i j (omega arith) (omega arith)

  -- What was written is read back.
  pub slice-blit : (f : ℕ → A) (o : ℕ) (xs : List A) → slice (blit f o xs) o (length xs) ≡ xs
  unfolding slice blit
  slice-blit f o [] = refl
  slice-blit f o (x ∷ xs) = ap₂ ◌∷◌ (update_self (blit f (o + 1) xs) o x) (
      slice-ext (update (blit f (o + 1) xs) o x) (blit f (o + 1) xs) (o + 1) (o + 1) (length xs)
        (λ i a b lt ea eb.
          update_ne (blit f (o + 1) xs) o x a (omega arith) ∙ ap (blit f (o + 1) xs) (omega arith))
      ∙ slice-blit f (o + 1) xs)

  update_comm :
      (f : ℕ → A) (i j : ℕ) (x y : A)
      → i ≢ j
      → update (update f j y) i x ≡ update (update f i x) j y
  update_comm f i j x y ne = fun_ext (λ k. ground arith)

  update-blit :
      (f : ℕ → A) (o p : ℕ) (x : A) (ys : List A)
      → o < p
      → update (blit f p ys) o x ≡ blit (update f o x) p ys
  unfolding blit
  update-blit f o p x [] h = refl
  update-blit f o p x (y ∷ ys) h =
      update_comm (blit f (p + 1) ys) o p x y (omega arith)
      ∙ ap (λ g. update g p y) (update-blit f o (p + 1) x ys (omega arith))

  -- Two writes of adjacent runs, the lower first.
  pub blit-append_up :
      (f : ℕ → A) (o : ℕ) (xs ys : List A) (p : ℕ)
      → p ≡ o + length xs
      → blit f o (xs ++ ys) ≡ blit (blit f o xs) p ys
  unfolding blit
  blit-append_up f o [] ys p e = let e' : p ≡ o = omega arith in rw e'
  blit-append_up f o (x ∷ xs) ys p e =
      ap (λ g. update g o x) (blit-append_up f (o + 1) xs ys p (omega arith))
      ∙ update-blit (blit f (o + 1) xs) o p x ys (omega arith)
