-- ===== src/Common/Words.antt =====
-- 64-bit words as native numbers: the wrap-around is written out. Memory blocks of bytes or words
-- are functions from the offset.
use Prim.Native.Nat.{ℕ, ◌%◌}
use mathlib.Core.Path.{◌≡◌}
use mathlib.Core.Logic.{◌≢◌}
use native.Mathlib.Omega.{arith}
use merry_v.Common.Tests.{◌==◌, if◌then◌else◌}

-- 2 ^ 64
abbrev pub word_mod : ℕ
word_mod = 18446744073709551616

-- (mqword_t)(-1)
abbrev pub word_max : ℕ
word_max = 18446744073709551615

abbrev pub wrap : ℕ → ℕ
wrap n = n % word_mod

-- The block `f` after a write of `v` at `i`.
abbrev pub update {ℓ} : {A : Type ℓ} → (ℕ → A) → ℕ → A → ℕ → A
update f i v j = if i == j then v else f j

pub update_self {ℓ} : {A : Type ℓ} (f : ℕ → A) (i : ℕ) (v : A) → update f i v i ≡ v
update_self f i v = ground arith

pub update_ne {ℓ} : {A : Type ℓ} (f : ℕ → A) (i : ℕ) (v : A) (j : ℕ) → i ≢ j → update f i v j ≡ f j
update_ne f i v j h = ground arith
