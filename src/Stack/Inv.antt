-- ===== src/Stack/Inv.antt =====
-- The invariant of the stack of merry/merry_stack.c, kept by every operation.
use merry_v.Common.{ℕ, ◌≤◌, ◌<◌, ◌≡◌, Bool, Option, none, some, arith, word_mod}
use merry_v.Stack.{Stack, Cells, init}

-- What the C library says of realloc: the cells of the old array keep their values. It may fail.
pub record Realloc (realloc : Option Cells → Option Cells) (size : ℕ) : Type 0 where
  pub keeps : (f g : Cells) (i : ℕ) → realloc (some f) ≡ some g → i < size → g i ≡ f i

-- The array is there, and nothing stands above its end.
pub record IsValid (st : Stack) : Type 0 where
  pub cells : Cells
  pub present : st.array ≡ some cells
  pub within : st.sp ≤ st.size
  pub sized : st.size < word_mod

pub init-IsValid :
    (struct_ok : Bool) (array : Option Cells) (len : ℕ) (dynamic : Bool) (upper per : ℕ)
    {st : Stack}
    → len < word_mod
    → init struct_ok array len dynamic upper per ≡ some st
    → IsValid st
unfolding init
init-IsValid struct_ok none len dynamic upper per lt e = absurd (cc e)
init-IsValid struct_ok (some f) len dynamic upper per lt e = record {
  cells = f;
  present = ground arith;
  within = ground arith;
  sized = ground arith;
}
