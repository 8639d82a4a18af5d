-- ===== src/Loader/Reload.antt =====
-- The libraries of merry/abs/merry_dynl.c by name: what a load gives, and what a load after an
-- unload gives.
use merry_v.Common.{
  ℕ, zero, suc, ◌+◌, ◌<◌, ◌≡◌, refl, ap, true, false, List, [], ◌∷◌, arith, ltb, leb, if◌then◌else◌,
  get_or, set, get_or-set_self, Bool-cases, inl, inr,
}
use merry_v.Loader.{
  Entry, Loader, Host, no_entry, find_name, check_entry, load_lib, unload_lib, get_func_symbol,
  same_name,
}
use merry_v.Loader.Laws.{IsValid}

-- A change that keeps an entry's name keeps what is found by name.
find_name-set :
    (path : List ℕ) (es : List Entry) (i d k : ℕ) (e : Entry)
    → e.entry_name ≡ (get_or es k no_entry).entry_name
    → find_name path (set es k e) i d ≡ find_name path es i d
unfolding find_name
find_name-set path [] i d k e same = refl
find_name-set path (x ∷ es) i d zero e same =
    ap (λ n. if same_name n path then i else find_name path es (i + 1) d) same
find_name-set path (x ∷ es) i d (suc k) e same =
    ap (λ n. if same_name x.entry_name path then i else n)
      (find_name-set path es (i + 1) d k e same)

load_lib-known :
    (h : Host) (l : Loader) (path : List ℕ) (k : ℕ)
    → check_entry l path ≡ k
    → k < l.entry_count
    → load_lib h l path ≡ (true, k, l)
unfolding load_lib
load_lib-known h l path k e lt =
    let found : ltb (check_entry l path) l.entry_count ≡ true = ground arith in
    rw found (ap (λ n. (true, n, l)) e)

get_func_symbol-free :
    (h : Host) (l : Loader) (k : ℕ) (sym_name : List ℕ)
    → (get_or l.entries k no_entry).handle_open ≡ true
    → get_func_symbol h l k sym_name ≡ 0
unfolding get_func_symbol
get_func_symbol-free h l k sym_name free = elim (Bool-cases (leb l.entry_count k)) [
  | inl out ↦ rw out refl
  | inr inside ↦
      rw inside
        (ap (λ b. if b then 0 else h.dlsym (get_or l.entries k no_entry).lib_handle sym_name) free)
]

-- What an unload leaves: the number of entries and their names, and a free entry.
unload_lib-parts :
    (l : Loader) (k : ℕ) (path : List ℕ)
    → IsValid l
    → k < l.entry_count
    → ((unload_lib l k).1.entry_count ≡ l.entry_count)
      × (check_entry (unload_lib l k).1 path ≡ check_entry l path)
      × ((get_or (unload_lib l k).1.entries k no_entry).handle_open ≡ true)
unfolding unload_lib
unload_lib-parts l k path v lt =
    let e = get_or l.entries k no_entry in
    let e' : Entry = record e { handle_open = true } in
    let inside : leb l.entry_count k ≡ false = ground arith in
    elim (Bool-cases e.handle_open) [
      | inl free ↦ rw (inside, free) (refl, refl, free)
      | inr taken ↦
          rw (inside, taken)
            (
              refl,
              find_name-set path l.entries 0 (l.entry_count + 1) k e' refl,
              ap (λ x. x.handle_open)
                  (get_or-set_self l.entries k e' no_entry (omega (arith, v.counted))),
            )
    ]

-- In a table whose counters are right, after an unload of the library that is found by a name,
-- a load of that name reports success and gives the same handle without opening the library: no
-- symbol is found under the handle.
pub load_lib-unload_lib :
    (h : Host) (l : Loader) (path sym_name : List ℕ)
    → IsValid l
    → check_entry l path < l.entry_count
    → (load_lib h (unload_lib l (check_entry l path)).1 path
        ≡ (true, check_entry l path, (unload_lib l (check_entry l path)).1))
      × (get_func_symbol h (unload_lib l (check_entry l path)).1 (check_entry l path) sym_name ≡ 0)
load_lib-unload_lib h l path sym_name v known =
    let k = check_entry l path in
    let left = unload_lib-parts l k path v known in
    (
      load_lib-known h (unload_lib l k).1 path k left.1 (omega (arith, left.0)),
      get_func_symbol-free h (unload_lib l k).1 k sym_name left.2,
    )
