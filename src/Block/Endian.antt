-- ===== src/Block/Endian.antt =====
-- What `*((mwptr_t)p)`, `*((mdptr_t)p)` and `*((mqptr_t)p)` of merry/merry_dmemory.c read and write
-- on a little-endian host: `n` bytes, the lowest first.
use merry_v.Common.{
  ℕ, zero, suc, ◌+◌, ◌*◌, ◌/◌, ◌%◌, ◌≤◌, ◌<◌, ◌≡◌, ◌⊎◌, inl, inr, refl, arith, update, update_self,
  update_ne, ◌∙◌, sym,
}

unfoldable pub load : ℕ → (ℕ → ℕ) → ℕ → ℕ
load zero f o = 0
load (suc n) f o = f o + 256 * load n f (o + 1)

unfoldable pub store : ℕ → (ℕ → ℕ) → ℕ → ℕ → ℕ → ℕ
store zero f o v = f
store (suc n) f o v = update (store n f (o + 1) (v / 256)) o (v % 256)

-- 256 ^ n
abbrev pub bound : ℕ → ℕ
bound zero = 1
bound (suc n) = 256 * bound n

load-update : (n : ℕ) (f : ℕ → ℕ) (i b o : ℕ) → i < o → load n (update f i b) o ≡ load n f o
unfolding load
load-update zero f i b o h = refl
load-update (suc n) f i b o h =
    omega (arith, update_ne f i b o (omega arith), load-update n f i b (o + 1) (omega arith))

-- The bytes written are the bytes read.
pub load-store : (n : ℕ) (f : ℕ → ℕ) (o v : ℕ) → v < bound n → load n (store n f o v) o ≡ v
unfolding load store
load-store zero f o v h = omega arith
load-store (suc n) f o v h = omega (
  arith,
  update_self (store n f (o + 1) (v / 256)) o (v % 256),
  load-update n (store n f (o + 1) (v / 256)) o (v % 256) (o + 1) (omega arith),
  load-store n f (o + 1) (v / 256) (omega arith),
)

-- A write changes its own bytes only.
pub store-frame : (n : ℕ) (f : ℕ → ℕ) (o v j : ℕ) → (j < o) ⊎ (o + n ≤ j) → store n f o v j ≡ f j
unfolding store
store-frame zero f o v j h = refl
store-frame (suc n) f o v j (inl h) =
    update_ne (store n f (o + 1) (v / 256)) o (v % 256) j (omega arith)
    ∙ store-frame n f (o + 1) (v / 256) j (inl (omega arith))
store-frame (suc n) f o v j (inr h) =
    update_ne (store n f (o + 1) (v / 256)) o (v % 256) j (omega arith)
    ∙ store-frame n f (o + 1) (v / 256) j (inr (omega arith))

-- Bytes make a number below the bound.
pub load-lt-bound : (n : ℕ) (f : ℕ → ℕ) (o : ℕ) → ((i : ℕ) → f i < 256) → load n f o < bound n
unfolding load
load-lt-bound zero f o h = omega arith
load-lt-bound (suc n) f o h = omega (arith, h o, load-lt-bound n f (o + 1) h)

pub store-byte :
    (n : ℕ) (f : ℕ → ℕ) (o v : ℕ) → ((i : ℕ) → f i < 256) → (i : ℕ) → store n f o v i < 256
unfolding store
store-byte zero f o v h i = h i
store-byte (suc n) f o v h i = ground (arith, store-byte n f (o + 1) (v / 256) h i)

-- A number depends only on its own bytes.
pub load-ext :
    (n : ℕ) (f g : ℕ → ℕ) (o p : ℕ)
    → ((i x y : ℕ) → i < n → x ≡ o + i → y ≡ p + i → f x ≡ g y)
    → load n f o ≡ load n g p
unfolding load
load-ext zero f g o p h = refl
load-ext (suc n) f g o p h =
    omega (
      arith,
      h 0 o p (omega arith) (omega arith) (omega arith),
      load-ext n f g (o + 1) (p + 1) rest,
    )
  where
    rest : (i x y : ℕ) → i < n → x ≡ o + 1 + i → y ≡ p + 1 + i → f x ≡ g y
    rest i x y lt ex ey = h (i + 1) x y (omega arith) (omega arith) (omega arith)

-- The bytes written do not depend on the block or on the place.
pub store-shift :
    (n : ℕ) (f g : ℕ → ℕ) (o p v i x y : ℕ)
    → i < n
    → x ≡ o + i
    → y ≡ p + i
    → store n f o v x ≡ store n g p v y
unfolding store
store-shift zero f g o p v i x y h ex ey = absurd (omega arith)
store-shift (suc n) f g o p v zero x y h ex ey = ground arith
store-shift (suc n) f g o p v (suc i) x y h ex ey =
    update_ne (store n f (o + 1) (v / 256)) o (v % 256) x (omega arith)
    ∙ store-shift n f g (o + 1) (p + 1) (v / 256) i x y (omega arith) (omega arith) (omega arith)
    ∙ sym (update_ne (store n g (p + 1) (v / 256)) p (v % 256) y (omega arith))

-- Eight bytes are four bytes and the four behind them.
pub load-append :
    (f : ℕ → ℕ) (o p : ℕ) → p ≡ o + 4 → load 8 f o ≡ load 4 f o + 4294967296 * load 4 f p
unfolding load
load-append f o p e = grind arith
