-- ===== src/Loader/Tests.antt =====
-- Concrete tables of libraries, and the theorems of the loader at them.
use merry_v.Common.{◌+◌, ◌≡◌, refl, true, false, [], ◌∷◌, arith}
use merry_v.Loader.{
  Entry, Loader, Host, find_name, check_entry, load_lib, unload_lib, get_func_symbol,
}
use merry_v.Loader.Laws.{IsValid, load_lib-IsValid}
use merry_v.Loader.Reload.{load_lib-unload_lib}

abbrev free_entry : Entry
free_entry = record { entry_name = []; lib_handle = 0; handle_open = true }

abbrev libs : Host
libs = record { realloc_ok = true; dlopen = λ path. 77; dlsym = λ lib name. lib + 1 }

-- A table with a library and a free entry.
abbrev table : Loader
table = record {
  entries = record { entry_name = 1 ∷ []; lib_handle = 70; handle_open = false } ∷ free_entry ∷ [];
  entry_count = 2;
  closed_entry_count = 1;
  overrun = false;
}

table-IsValid : IsValid table
table-IsValid = record { counted = refl; closed_counted = refl }

load_lib-IsValid_example : IsValid (load_lib libs table (2 ∷ [])).2
load_lib-IsValid_example = load_lib-IsValid libs table (2 ∷ []) (omega arith) table-IsValid

load_lib-unload_lib_example :
    (load_lib libs (unload_lib table (check_entry table (1 ∷ []))).1 (1 ∷ [])
      ≡ (true, check_entry table (1 ∷ []), (unload_lib table (check_entry table (1 ∷ []))).1))
    × (get_func_symbol libs
          (unload_lib table (check_entry table (1 ∷ []))).1
          (check_entry table (1 ∷ []))
          (9 ∷ [])
        ≡ 0)
unfolding find_name
load_lib-unload_lib_example =
    load_lib-unload_lib libs table (1 ∷ []) (9 ∷ []) table-IsValid (omega arith)
