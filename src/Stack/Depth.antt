-- ===== src/Stack/Depth.antt =====
-- The stack of return addresses as merry/merry_core.c sets it up: 30 places at first
-- (_MERRY_RAS_LEN_), 10 more per resize (_MERRY_RAS_GROW_PER_RESIZE_), 50 at most (_MERRY_RAS_LIMIT_).
use merry_v.Common.{
  ℕ, ◌+◌, ◌≤◌, ◌≡◌, ◌⊎◌, inl, inr, refl, true, Option, some, List, [], ◌∷◌, arith, ltb,
  if◌then◌else◌, length, leb, Bool-cases, ◌∙◌, ap,
}
use mathlib.Core.Path.{subst}
use mathlib.Core.Option.{some-injective}
use merry_v.Stack.{Stack, Status, Cells, success, failure, init, push}
use merry_v.Stack.Inv.{IsValid, Realloc}
use merry_v.Stack.Lifo.{contents, accepts, is_some, push-contents, push-refused}

abbrev pub ras_len : ℕ
ras_len = 30

abbrev pub ras_limit : ℕ
ras_limit = 50

abbrev pub ras_grow_per_resize : ℕ
ras_grow_per_resize = 10

-- A stack of return addresses, at any time.
pub record IsRas (st : Stack) : Type 0 where
  pub valid : IsValid st
  pub grows : st.dynamic ≡ true
  pub limit : st.upper_lim ≡ ras_limit
  pub step : st.add_per_resize ≡ ras_grow_per_resize
  pub steps : (st.size ≡ 30) ⊎ (st.size ≡ 40) ⊎ (st.size ≡ 50)

pub init-IsRas :
    (cells : Cells) {st : Stack}
    → init true (some cells) ras_len true ras_limit ras_grow_per_resize ≡ some st
    → IsRas st × (contents st ≡ [])
unfolding init
init-IsRas cells {st} e =
    subst (λ t. IsRas t × (contents t ≡ [])) (some-injective fresh st e)
      (
        record {
          valid = record {
            cells = cells;
            present = refl;
            within = omega arith;
            sized = omega arith;
          };
          grows = refl;
          limit = refl;
          step = refl;
          steps = inl refl;
        },
        refl,
      )
  where
    fresh : Stack
    fresh = record {
      array = some cells;
      size = 30;
      sp = 0;
      dynamic = true;
      upper_lim = 50;
      add_per_resize = 10;
    }

-- With a realloc that does not fail a return address is accepted exactly below 50 of them.
pub ras_accepts :
    (realloc : Option Cells → Option Cells) {st : Stack}
    → IsRas st
    → is_some (realloc st.array) ≡ true
    → accepts realloc st ≡ ltb st.sp ras_limit
ras_accepts realloc {st} r gives = ground arith

push-IsRas :
    (realloc : Option Cells → Option Cells) {st : Stack} (x : ℕ)
    → IsRas st
    → Realloc realloc st.size
    → accepts realloc st ≡ true
    → IsRas (push realloc st x).1
unfolding push
push-IsRas realloc {st} x r keeps ok = record {
  valid = (push-contents realloc x r.valid keeps (omega (arith, r.step)) (ground arith) ok).1;
  grows = ground arith;
  limit = ground arith;
  step = ground arith;
  steps = ground arith;
}

push-sp :
    (realloc : Option Cells → Option Cells) {st : Stack} (x : ℕ)
    → IsRas st
    → accepts realloc st ≡ true
    → (push realloc st x).1.sp ≡ st.sp + 1
unfolding push
push-sp realloc x r ok = ground arith

-- Calls one inside the other: each pushes its return address, the first that fails ends the row.
unfoldable pub push_all : (Option Cells → Option Cells) → Stack → List ℕ → Status × Stack
push_all realloc st [] = (success, st)
push_all realloc st (x ∷ xs) =
    let (status, st') = push realloc st x in
    elim status [ success ↦ push_all realloc st' xs | other ↦ (other, st') ]

-- On a return address stack of at most 50 addresses, with a realloc that keeps the old values
-- and never fails, a row of pushes succeeds exactly if no more than 50 addresses are open at
-- the end.
pub push_all-depth :
    (realloc : Option Cells → Option Cells) (xs : List ℕ) {st : Stack}
    → ((size : ℕ) → Realloc realloc size)
    → ((f : Cells) → is_some (realloc (some f)) ≡ true)
    → IsRas st
    → st.sp ≤ ras_limit
    → (push_all realloc st xs).0 ≡ (if leb (st.sp + length xs) ras_limit then success else failure)
unfolding push_all
push_all-depth realloc [] {st} keeps gives r le = ground arith
push_all-depth realloc (x ∷ xs) {st} keeps gives r le = elim (Bool-cases (accepts realloc st)) [
  | inr bad ↦
      rw ((push-refused realloc st x bad).0, push_all) (ground (arith, ras_accepts realloc r given))
  | inl ok ↦
      let (done, valid, same) =
        push-contents realloc x r.valid (keeps st.size) (omega (arith, r.step)) (ground arith) ok in
      let next = push-sp realloc x r ok in
      rw (done, push_all)
        (push_all-depth realloc xs keeps gives (push-IsRas realloc x r (keeps st.size) ok)
            (ground (arith, ras_accepts realloc r given))
          ∙ ap (λ n. if leb n ras_limit then success else failure) (omega (arith, next)))
]
  where
    given : is_some (realloc st.array) ≡ true
    given = rw (r.valid.present) (gives r.valid.cells)
