-- ===== src/Loader.antt =====
-- The loader of shared libraries, merry/abs/merry_dynl.c: a table of entries, each free
-- (`handle_open`) or with an open library.
pub mod Laws
pub mod Reload
mod Tests
use merry_v.Common.{
  ℕ, zero, suc, ◌+◌, ◌-◌, ◌*◌, ◌/◌, Bool, true, false, not, ◌&&◌, ◌||◌, Option, none, some, List,
  [], ◌∷◌, ltb, leb, ◌==◌, if◌then◌else◌, get_or, set, length, take,
}

-- `MerryDynEntry`
pub record Entry : Type 0 where
  pub entry_name : List ℕ
  pub lib_handle : ℕ
  pub handle_open : Bool

-- `sizeof(MerryDynEntry)` on a 64-bit host: the name and a byte of padding, the handle, and the flag,
-- padded. `char entry_name[255]` holds a name of less than 255 characters.
abbrev pub entry_size : ℕ
entry_size = 272

abbrev pub name_size : ℕ
name_size = 255

-- `MerryDynLoader`
-- `overrun` tells that something was written behind the end of the block of the table or of a name in
-- it: what the memory holds from then on is not known, and nothing is claimed of such a table.
pub record Loader : Type 0 where
  pub entries : List Entry
  pub entry_count : ℕ
  pub closed_entry_count : ℕ
  pub overrun : Bool

-- What the host decides: whether realloc gives a block; `dlopen` of a path, and `dlsym` of a library
-- and a name, with 0 for NULL.
pub record Host : Type 0 where
  pub realloc_ok : Bool
  pub dlopen : List ℕ → ℕ
  pub dlsym : ℕ → List ℕ → ℕ

-- What stands for an entry behind the end of the table.
abbrev pub no_entry : Entry
no_entry = record { entry_name = []; lib_handle = 0; handle_open = false }

-- `strcmp(...) == 0` on the characters before the NUL.
abbrev pub same_name : List ℕ → List ℕ → Bool
same_name [] [] = true
same_name [] (b ∷ ys) = false
same_name (a ∷ xs) [] = false
same_name (a ∷ xs) (b ∷ ys) = a == b && same_name xs ys

-- The loop of `merry_loader_init` in round `i`, with `n` rounds left, over what malloc left.
unfoldable pub init_entries : (ℕ → Entry) → ℕ → ℕ → List Entry
init_entries left zero i = []
init_entries left (suc n) i = record (left i) { handle_open = true } ∷ init_entries left n (i + 1)

-- `merry_loader_init`
unfoldable pub init : Bool → (ℕ → Entry) → ℕ → Option Loader
unfolding init_entries
init malloc_ok left initial_entry_count =
    if malloc_ok
    then some (record {
      entries = init_entries left initial_entry_count 0;
      entry_count = initial_entry_count;
      closed_entry_count = initial_entry_count;
      overrun = false;
    })
    else none

-- The libraries of the entries that `merry_loader_close` closes.
unfoldable pub open_libraries : List Entry → List ℕ
open_libraries [] = []
open_libraries (e ∷ es) =
    let rest = open_libraries es in if e.handle_open then rest else e.lib_handle ∷ rest

-- `merry_loader_close`: what is passed to dlclose.
unfoldable pub close : Loader → List ℕ
unfolding open_libraries
close l = if not (l.closed_entry_count == l.entry_count) then open_libraries l.entries else []

-- The loop of `merry_loader_find_free_handle` in round `i`.
unfoldable pub find_free : List Entry → ℕ → ℕ → ℕ
find_free [] i none_free = none_free
find_free (e ∷ es) i none_free =
    let rest = find_free es (i + 1) none_free in if e.handle_open then i else rest

-- `merry_loader_find_free_handle`
abbrev pub find_free_handle : Loader → ℕ
find_free_handle l = find_free l.entries 0 (l.entry_count + 1)

-- `merry_loader_add_entry`: realloc is asked for `entry_count + 1` bytes, in which only the first
-- entries, if any, stay whole.
unfoldable pub add_entry : Host → Loader → Option Loader
add_entry h l =
    if h.realloc_ok
    then some (record l {
      entries = take ((l.entry_count + 1) / entry_size) l.entries;
      entry_count = l.entry_count + 1;
      closed_entry_count = l.closed_entry_count + 1;
    })
    else none

-- The loop of `merry_loader_check_entry` in round `i`.
unfoldable pub find_name : List ℕ → List Entry → ℕ → ℕ → ℕ
find_name path [] i not_found = not_found
find_name path (e ∷ es) i not_found =
    let rest = find_name path es (i + 1) not_found in
    if same_name e.entry_name path then i else rest

-- `merry_loader_check_entry`
abbrev pub check_entry : Loader → List ℕ → ℕ
check_entry l path = find_name path l.entries 0 (l.entry_count + 1)

-- The end of `merry_loader_loadLib`, which opens the library for entry `handle`: lib_handle is written
-- whether dlopen fails or not, and strcpy copies the name with its NUL.
unfoldable pub open_entry : Host → Loader → List ℕ → ℕ → Bool × ℕ × Loader
open_entry h l path handle =
    let e = get_or l.entries handle no_entry in
    let lib = h.dlopen path in
    let outside = leb (length l.entries) handle in
    if lib == 0
    then (
      false,
      handle,
      record l {
        entries = set l.entries handle (record e { lib_handle = 0 });
        overrun = l.overrun || outside;
      },
    )
    else (
      true,
      handle,
      record l {
        entries =
            set l.entries handle
              (record { entry_name = path; lib_handle = lib; handle_open = false });
        closed_entry_count = l.closed_entry_count - 1;
        overrun = l.overrun || outside || leb name_size (length path);
      },
    )

-- `merry_loader_loadLib`: whether it succeeds, what it leaves in `*handle`, and the table. The count
-- that is decremented is not zero; if realloc fails, its NULL has replaced the table.
unfoldable pub load_lib : Host → Loader → List ℕ → Bool × ℕ × Loader
unfolding open_entry add_entry
load_lib h l path =
    let known = check_entry l path in
    if ltb known l.entry_count
    then (true, known, l)
    else (if ltb 0 l.closed_entry_count
        then open_entry h l path (find_free_handle l)
        else elim (add_entry h l) [
          | none ↦ (false, known, record l { entries = [] })
          | some l' ↦ open_entry h l' path (l'.entry_count - 1)
        ])

-- `merry_loader_unloadLib`: the library passed to dlclose, and the table.
unfoldable pub unload_lib : Loader → ℕ → Option ℕ × Loader
unload_lib l handle =
    let e = get_or l.entries handle no_entry in
    if leb l.entry_count handle
    then (none, l)
    else (if e.handle_open then (none, l) else (
      some e.lib_handle,
      record l {
        entries = set l.entries handle (record e { handle_open = true });
        closed_entry_count = l.closed_entry_count + 1;
      },
    ))

-- `merry_loader_getFuncSymbol`, with 0 for NULL.
unfoldable pub get_func_symbol : Host → Loader → ℕ → List ℕ → ℕ
get_func_symbol h l handle sym_name =
    let e = get_or l.entries handle no_entry in
    if leb l.entry_count handle
    then 0
    else (if e.handle_open then 0 else h.dlsym e.lib_handle sym_name)
