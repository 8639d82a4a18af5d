-- ===== src/Stack/Lifo.antt =====
-- The stack of merry/merry_stack.c as a list, the top first: a push puts a value in front, a pop
-- takes it off, and growing moves nothing.
use merry_v.Common.{
  ℕ, zero, suc, ◌+◌, ◌<◌, ◌≡◌, refl, sym, ap, ap₂, ◌∙◌, Bool, true, false, not, ◌&&◌, Option, none,
  some, List, [], ◌∷◌, arith, word_mod, wrap, ltb, if◌then◌else◌, update, update_self, update_ne,
  Bool-cases, Option-cases, inl, inr,
}
use mathlib.Core.Path.{subst}
use merry_v.Stack.{Stack, Status, Cells, success, failure, stack_full, put, push, pop}
use merry_v.Stack.Inv.{IsValid, Realloc}

-- The cells below `n`, the last first.
abbrev pub items : Cells → ℕ → List ℕ
items f zero = []
items f (suc n) = f n ∷ items f n

abbrev pub contents : Stack → List ℕ
contents st = elim st.array [ none ↦ [] | some f ↦ items f st.sp ]

items-ext : (f g : Cells) (n : ℕ) → ((i : ℕ) → i < n → f i ≡ g i) → items f n ≡ items g n
items-ext f g zero h = refl
items-ext f g (suc n) h = ap₂ ◌∷◌ (h n (omega arith)) (items-ext f g n (λ i lt. h i (omega arith)))

items-update : (f : Cells) (n v : ℕ) → items (update f n v) (suc n) ≡ v ∷ items f n
items-update f n v =
    ap₂ ◌∷◌ (update_self f n v)
      (items-ext (update f n v) f n (λ i lt. update_ne f n v i (omega arith)))

put-contents :
    {st : Stack} (x : ℕ)
    → IsValid st
    → st.sp < st.size
    → IsValid (put st x).1 × ((put st x).0 ≡ success) × (contents (put st x).1 ≡ x ∷ contents st)
unfolding put
put-contents {st} x v lt =
    let next : wrap (st.sp + 1) ≡ suc st.sp = omega (arith, v.within, v.sized) in
    rw (v.present, next)
      (
        record { cells = _; present = refl; within = lt; sized = v.sized },
        refl,
        items-update v.cells st.sp x,
      )

-- What the array looks like after a resize that succeeds.
grown-IsValid :
    (realloc : Option Cells → Option Cells) {st : Stack} (g : Cells)
    → (v : IsValid st) → Realloc realloc st.size
    → st.size + st.add_per_resize < word_mod
    → realloc (some v.cells) ≡ some g
    → let st' = record st { array = some g; size = st.size + st.add_per_resize } in
      IsValid st' × (contents st' ≡ contents st)
grown-IsValid realloc {st} g v r small e = (
  record { cells = g; present = refl; within = omega (arith, v.within); sized = small },
  rw (v.present)
      (items-ext g v.cells st.sp (λ i lt. r.keeps v.cells g i e (omega (arith, v.within)))),
)

abbrev pub is_some : Option Cells → Bool
is_some none = false
is_some (some _) = true

-- There is room, or the stack may grow, stays within its limit and realloc gives the memory.
abbrev pub accepts : (Option Cells → Option Cells) → Stack → Bool
accepts realloc st =
    if stack_full st
    then st.dynamic
      && not (ltb st.upper_lim (wrap (st.size + st.add_per_resize)))
      && is_some (realloc st.array)
    else true

-- A push on a valid stack that has room, or can grow by at least one place to a size below 2 ^
-- 64 with a realloc that keeps the old values and gives the memory, succeeds, keeps the stack
-- valid and puts the value on top of all that was there.
pub push-contents :
    (realloc : Option Cells → Option Cells) {st : Stack} (x : ℕ)
    → IsValid st
    → Realloc realloc st.size
    → 0 < st.add_per_resize
    → st.size + st.add_per_resize < word_mod
    → accepts realloc st ≡ true
    → ((push realloc st x).0 ≡ success)
      × IsValid (push realloc st x).1
      × (contents (push realloc st x).1 ≡ x ∷ contents st)
unfolding push
push-contents realloc {st} x v r grows small ok = elim (Bool-cases (stack_full st)) [
  | inr room ↦ let (a, b, c) = put-contents x v (ground arith) in rw room (b, a, c)
  | inl full ↦ elim (Option-cases (realloc st.array)) [
    | inl fails ↦ absurd (ground arith)
    | inr (g, got) ↦
        let may : st.dynamic ≡ true = ground arith in
        let next : wrap (st.size + st.add_per_resize) ≡ st.size + st.add_per_resize = omega arith in
        let under : ltb st.upper_lim (wrap (st.size + st.add_per_resize)) ≡ false = ground arith in
        let (valid, same) = grown-IsValid realloc g v r small (rw (← v.present) got) in
        let (a, b, c) =
          put-contents {st = record st { array = some g; size = st.size + st.add_per_resize }} x
            valid (ground arith) in
        rw (full, may, under, got, next) (b, a, c ∙ ap (λ l. x ∷ l) same)
  ]
]

-- Every other push fails; the stack is as it was, unless only realloc failed, which loses the
-- array.
pub push-refused :
    (realloc : Option Cells → Option Cells) (st : Stack) (x : ℕ)
    → accepts realloc st ≡ false
    → ((push realloc st x).0 ≡ failure)
      × ((push realloc st x).1 ≡ (
          if st.dynamic && not (ltb st.upper_lim (wrap (st.size + st.add_per_resize)))
          then record st { array = none }
          else st))
unfolding push
push-refused realloc st x bad = elim (Bool-cases (stack_full st)) [
  | inr room ↦ absurd (ground arith)
  | inl full ↦ elim (Option-cases (realloc st.array)) [
    | inl fails ↦ ground arith
    | inr (g, got) ↦ ground arith
  ]
]

-- What a pop gives on a stack with these contents.
abbrev pub Popped : List ℕ → Stack → Status × Option ℕ × Stack → Type 0
Popped [] st (status, out, st') = (status ≡ failure) × (out ≡ none) × (st' ≡ st)
Popped (x ∷ rest) st (status, out, st') =
    (status ≡ success) × (out ≡ some x) × (contents st' ≡ rest)

-- A pop takes the top off, and fails exactly if there is none.
pub pop-contents : {st : Stack} → IsValid st → Popped (contents st) st (pop st)
unfolding pop
pop-contents {st} v = subst (λ l. Popped l st (pop st)) (sym listed) (go st.sp refl)
  where
    listed : contents st ≡ items v.cells st.sp
    listed = ground arith

    go : (n : ℕ) → st.sp ≡ n → Popped (items v.cells n) st (pop st)
    go zero e = ground arith
    go (suc n) e = ground arith

-- What a valid stack accepts is popped next, and the contents are then as before, also if the
-- push had to resize: realloc keeps the old values, a resize adds room and the new size is
-- below 2 ^ 64.
pub pop-push :
    (realloc : Option Cells → Option Cells) {st : Stack} (x : ℕ)
    → IsValid st
    → Realloc realloc st.size
    → 0 < st.add_per_resize
    → st.size + st.add_per_resize < word_mod
    → accepts realloc st ≡ true
    → let (status, out, st') = pop (push realloc st x).1 in
      (status ≡ success) × (out ≡ some x) × (contents st' ≡ contents st)
pop-push realloc {st} x v r grows small ok =
    let (done, valid, same) = push-contents realloc x v r grows small ok in
    rw same at (pop-contents valid)
