-- ===== src/Core/Lifecycle.antt =====
-- How a core comes and goes: `merry_core_init` and `merry_core_destroy` of merry/merry_core.c, seen by
-- the pointers in the structure.
use merry_v.Common.{
  ◌≡◌, refl, Bool, true, false, ◌&&◌, ◌||◌, not, ◌>>=◌, if◌then◌else◌, Option, none, some,
}

-- A pointer: NULL, what malloc left in the structure, memory that the process holds, MAP_FAILED, or
-- memory that was given back already.
pub data Pointer : Type 0 where
  null junk owned map_failed returned : Pointer

-- What a test for NULL and the release leave of a pointer, and `none` if it may not be released: munmap
-- of MAP_FAILED reports an error, which is ignored.
unfoldable pub give_back : Pointer → Option Pointer
give_back null = some null
give_back junk = none
give_back owned = some returned
give_back map_failed = some map_failed
give_back returned = none

-- Whether a pointer may be released.
unfoldable pub releases : Pointer → Bool
unfolding give_back
releases p = elim (give_back p) [ none ↦ false | some p' ↦ true ]

unfoldable pub is_null : Pointer → Bool
is_null null = true
is_null _ = false

abbrev pub granted : Bool → Pointer
granted ok = if ok then owned else null

-- The structure itself and the pointers in it.
pub record Parts : Type 0 where
  pub core : Pointer
  pub cond : Pointer
  pub lock : Pointer
  pub registers : Pointer
  pub stack_mem : Pointer
  pub ras : Pointer

-- `merry_core_destroy` of a core that is not NULL: what becomes of each pointer, and `none` if it
-- releases what is not the core's.
unfoldable pub destroy : Parts → Option Parts
unfolding give_back
destroy p = do
  cond ← give_back p.cond
  lock ← give_back p.lock
  registers ← give_back p.registers
  stack_mem ← give_back p.stack_mem
  ras ← give_back p.ras
  core ← give_back p.core
  some (record {
    core = core;
    cond = cond;
    lock = lock;
    registers = registers;
    stack_mem = stack_mem;
    ras = ras;
  })

-- Which of the allocations of `merry_core_init` succeed, in its order. The page of the stack is
-- mapped by mmap, which gives MAP_FAILED if it fails.
pub record Grants : Type 0 where
  pub core : Bool
  pub cond : Bool
  pub lock : Bool
  pub registers : Bool
  pub stack_mem : Bool
  pub ras : Bool

-- A core; RET_NULL, with what becomes of the pointers; or a release of what is not the core's.
pub data Built : Type 0 where
  made refused : Parts → Built
  faulted : Built

-- `goto failure;`
abbrev pub undo : Parts → Built
undo p = elim (destroy p) [ none ↦ faulted | some p' ↦ refused p' ]

-- The early return without a condition variable or a lock.
abbrev pub undo_early : Parts → Built
undo_early p = elim (give_back p.cond) [
  | none ↦ faulted
  | some cond ↦ elim (give_back p.core) [
    | none ↦ faulted
    | some core ↦ refused (record p { core = core; cond = cond })
  ]
]

unfoldable pub build : Grants → Built
unfolding destroy is_null give_back
build g =
    let bare : Parts = record {
      core = granted g.core;
      cond = junk;
      lock = junk;
      registers = junk;
      stack_mem = junk;
      ras = junk;
    } in
    let waiting = record bare { cond = granted g.cond } in
    let locked = record waiting { lock = granted g.lock } in
    let empty = record locked { registers = granted g.registers } in
    let stacked = record empty { stack_mem = if g.stack_mem then owned else map_failed } in
    let whole = record stacked { ras = granted g.ras } in
    if is_null bare.core
    then refused bare
    else (if is_null waiting.cond
        then undo_early waiting
        else (if is_null locked.lock
            then undo_early locked
            else (if is_null empty.registers
                then undo empty
                else (if is_null stacked.stack_mem
                    then undo stacked
                    else (if is_null whole.ras then undo whole else made whole)))))

abbrev pub is_owned : Pointer → Bool
is_owned owned = true
is_owned _ = false

-- Whether the process still holds anything of a core.
abbrev pub holds : Parts → Bool
holds p =
    is_owned p.core
    || is_owned p.cond
    || is_owned p.lock
    || is_owned p.registers
    || is_owned p.stack_mem
    || is_owned p.ras

-- What the process holds of a core that was made with these allocations.
abbrev pub held : Bool → Parts
held stack_mem = record {
  core = owned;
  cond = owned;
  lock = owned;
  registers = owned;
  stack_mem = if stack_mem then owned else map_failed;
  ras = owned;
}

-- What is to be accounted for: the parts of a core that was made, and that its release and a refusal
-- leave nothing held; and which allocations each outcome stands for.
abbrev pub Accounted : Grants → Built → Type 0
Accounted g (made p) =
    (p ≡ held g.stack_mem)
    × ((p' : Parts) × (destroy p ≡ some p') × (holds p' ≡ false))
    × ((g.core && g.cond && g.lock && g.registers && g.ras) ≡ true)
Accounted g (refused p) =
    (holds p ≡ false)
    × ((g.core && g.cond && g.lock && not g.registers) ≡ false)
    × ((g.core && g.cond && g.lock && g.registers && g.ras) ≡ false)
Accounted g faulted = (g.core && g.cond && g.lock && not g.registers) ≡ true

-- `merry_core_init` makes a core exactly if all of its allocations but the mapping of the stack
-- succeed: it holds all of them, its stack is MAP_FAILED without the mapping, and after
-- `merry_core_destroy` nothing of it is held, the structure included. Where the array of
-- registers is the first that is missing it releases pointers that were never set; otherwise it
-- returns NULL, and nothing is held.
pub build-Accounted : (g : Grants) → Accounted g (build g)
unfolding build destroy give_back is_null
build-Accounted g = go g.core g.cond g.lock g.registers g.stack_mem g.ras
  where
    go :
        (core cond lock registers stack_mem ras : Bool)
        → let g' : Grants = record {
          core = core;
          cond = cond;
          lock = lock;
          registers = registers;
          stack_mem = stack_mem;
          ras = ras;
        } in
          Accounted g' (build g')
    go false c l r s a = (refl, refl, refl)
    go true false l r s a = (refl, refl, refl)
    go true true false r s a = (refl, refl, refl)
    go true true true false s a = refl
    go true true true true true true = (refl, (_, refl, refl), refl)
    go true true true true false true = (refl, (_, refl, refl), refl)
    go true true true true true false = (refl, refl, refl)
    go true true true true false false = (refl, refl, refl)
