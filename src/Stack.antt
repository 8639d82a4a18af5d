-- ===== src/Stack.antt =====
-- The growing stack of merry/merry_stack.c and merry/tools/merry_stack.h, which holds the return
-- addresses of a core. The outcomes of malloc and realloc are arguments: `none` is NULL.
pub mod Inv
pub mod Lifo
pub mod Depth
mod Tests
use merry_v.Common.{
  ℕ, ◌+◌, ◌-◌, Bool, true, false, Option, none, some, if◌then◌else◌, ltb, leb, ◌==◌, update, wrap,
}

-- The cells behind `array`, by index.
abbrev pub Cells : Type 0
Cells = ℕ → ℕ

pub record Stack : Type 0 where
  pub array : Option Cells
  pub size : ℕ
  pub sp : ℕ
  pub dynamic : Bool
  pub upper_lim : ℕ
  pub add_per_resize : ℕ

-- How a call ends; `crashed` is an access through a NULL array.
pub data Status : Type 0 where
  success failure crashed : Status

abbrev pub stack_full : Stack → Bool
stack_full st = leb st.size st.sp

abbrev pub stack_empty : Stack → Bool
stack_empty st = st.sp == 0

-- An upper limit of 0 stands for 1000.
unfoldable pub init : Bool → Option Cells → ℕ → Bool → ℕ → ℕ → Option Stack
init struct_ok none len dynamic upper_lim per_resize = none
init struct_ok (some cells) len dynamic upper_lim per_resize =
    if struct_ok
    then some (record {
      array = some cells;
      size = len;
      sp = 0;
      dynamic = dynamic;
      upper_lim = if upper_lim == 0 then 1000 else upper_lim;
      add_per_resize = per_resize;
    })
    else none

-- If realloc fails the array is lost and the size stays.
unfoldable pub resize : (Option Cells → Option Cells) → Stack → Bool × Stack
resize realloc st =
    let new_len = wrap (st.size + st.add_per_resize) in
    if ltb st.upper_lim new_len then (false, st) else elim (realloc st.array) [
      | none ↦ (false, record st { array = none })
      | some cells ↦ (true, record st { array = some cells; size = new_len })
    ]

-- `st->array[st->sp] = _to_push; st->sp++;`
unfoldable pub put : Stack → ℕ → Status × Stack
put st v = elim st.array [
  | none ↦ (crashed, st)
  | some cells ↦ (success, record st { array = some (update cells st.sp v); sp = wrap (st.sp + 1) })
]

unfoldable pub push : (Option Cells → Option Cells) → Stack → ℕ → Status × Stack
unfolding resize put
push realloc st v =
    if stack_full st
    then (if st.dynamic
        then (let (done, st') = resize realloc st in if done then put st' v else (failure, st'))
        else (failure, st))
    else put st v

-- The value popped goes through `store_in`.
unfoldable pub pop : Stack → Status × Option ℕ × Stack
pop st = if stack_empty st then (failure, none, st) else elim st.array [
  | none ↦ (crashed, none, record st { sp = st.sp - 1 })
  | some cells ↦ (success, some (cells (st.sp - 1)), record st { sp = st.sp - 1 })
]

unfoldable pub popn : Stack → Stack
popn st = if stack_empty st then st else record st { sp = st.sp - 1 }
