-- ===== src/Stack/Tests.antt =====
-- Concrete stacks, and the theorems of the stack at them.
use merry_v.Common.{
  ℕ, ◌+◌, ◌≡◌, inl, refl, sym, ap, true, false, not, ◌&&◌, Option, none, some, List, [], ◌∷◌, arith,
  if◌then◌else◌, ltb, leb, wrap, length,
}
use mathlib.Core.Option.{some-injective}
use merry_v.Stack.{Stack, Cells, success, failure, push, pop}
use merry_v.Stack.Inv.{IsValid, Realloc}
use merry_v.Stack.Lifo.{contents, Popped, push-contents, push-refused, pop-push, pop-contents}
use merry_v.Stack.Depth.{IsRas, ras_limit, push_all, push_all-depth}

abbrev keep : Option Cells → Option Cells
keep array = array

abbrev numbers : Cells
numbers i = i

-- a full stack of one value, which may grow, and one which may not
abbrev one : Stack
one = record {
  array = some numbers;
  size = 1;
  sp = 1;
  dynamic = true;
  upper_lim = 50;
  add_per_resize = 10;
}

abbrev fixed : Stack
fixed = record one { dynamic = false }

abbrev ras : Stack
ras = record {
  array = some numbers;
  size = 30;
  sp = 0;
  dynamic = true;
  upper_lim = 50;
  add_per_resize = 10;
}

abbrev addresses : List ℕ
addresses = 4 ∷ 8 ∷ []

keep-Realloc : (size : ℕ) → Realloc keep size
keep-Realloc size = record { keeps = λ f g i e lt. ap (λ h. h i) (sym (some-injective f g e)) }

one-IsValid : IsValid one
one-IsValid = record { cells = numbers; present = refl; within = omega arith; sized = omega arith }

ras-IsRas : IsRas ras
ras-IsRas = record {
  valid = record { cells = numbers; present = refl; within = omega arith; sized = omega arith };
  grows = refl;
  limit = refl;
  step = refl;
  steps = inl refl;
}

push-contents_example :
    ((push keep one 7).0 ≡ success)
    × IsValid (push keep one 7).1
    × (contents (push keep one 7).1 ≡ 7 ∷ contents one)
push-contents_example =
    push-contents keep 7 one-IsValid (keep-Realloc 1) (omega arith) (omega arith) refl

push-refused_example :
    ((push keep fixed 7).0 ≡ failure)
    × ((push keep fixed 7).1 ≡ (
        if fixed.dynamic && not (ltb fixed.upper_lim (wrap (fixed.size + fixed.add_per_resize)))
        then record fixed { array = none }
        else fixed))
push-refused_example = push-refused keep fixed 7 refl

pop-push_example :
    let (status, out, st') = pop (push keep one 7).1 in
    (status ≡ success) × (out ≡ some 7) × (contents st' ≡ contents one)
pop-push_example = pop-push keep 7 one-IsValid (keep-Realloc 1) (omega arith) (omega arith) refl

pop-contents_example : Popped (contents one) one (pop one)
pop-contents_example = pop-contents one-IsValid

push_all-depth_example :
    (push_all keep ras addresses).0
    ≡ (if leb (ras.sp + length addresses) ras_limit then success else failure)
push_all-depth_example =
    push_all-depth keep addresses keep-Realloc (λ f. refl) ras-IsRas (omega arith)
