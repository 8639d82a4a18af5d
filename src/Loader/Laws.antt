-- ===== src/Loader/Laws.antt =====
-- The counters of the table of merry/abs/merry_dynl.c.
use merry_v.Common.{
  ℕ, zero, suc, ◌+◌, ◌<◌, ◌≡◌, refl, sym, ap, ◌∙◌, Bool, true, false, none, some, List, [], ◌∷◌,
  arith, ltb, leb, ◌==◌, if◌then◌else◌, get_or, set, length, length-set, Bool-cases, inl, inr,
}
use mathlib.Core.Path.{subst}
use merry_v.Loader.{
  Entry, Loader, Host, no_entry, find_free, check_entry, find_free_handle, open_entry, load_lib,
  unload_lib, init, init_entries,
}

abbrev pub flag_count : Bool → ℕ
flag_count b = if b then 1 else 0

-- The free entries, counted.
abbrev pub count_free : List Entry → ℕ
count_free [] = 0
count_free (e ∷ es) = flag_count e.handle_open + count_free es

-- The counters of the table are what they say.
pub record IsValid (l : Loader) : Type 0 where
  pub counted : l.entry_count ≡ length l.entries
  pub closed_counted : l.closed_entry_count ≡ count_free l.entries

-- A table with a free entry has one where the loop finds it.
pub find_free-found :
    (es : List Entry) (i d : ℕ)
    → 0 < count_free es
    → (k : ℕ) × (find_free es i d ≡ i + k)
      × (k < length es)
      × ((get_or es k no_entry).handle_open ≡ true)
unfolding find_free
find_free-found [] i d pos = absurd (omega arith)
find_free-found (e ∷ es) i d pos = elim (Bool-cases e.handle_open) [
  | inl here ↦ (0, ground arith, omega arith, here)
  | inr later ↦
      let rest = find_free-found es (i + 1) d (ground arith) in
      (
        suc rest.0,
        ap (λ b. if b then i else find_free es (i + 1) d) later ∙ rest.1 ∙ omega arith,
        omega (arith, rest.2),
        rest.3,
      )
]

count_free-set :
    (es : List Entry) (k : ℕ) (e : Entry)
    → k < length es
    → count_free (set es k e) + flag_count (get_or es k no_entry).handle_open
      ≡ count_free es + flag_count e.handle_open
count_free-set [] k e lt = absurd (omega arith)
count_free-set (x ∷ es) zero e lt = ground arith
count_free-set (x ∷ es) (suc k) e lt = omega (arith, count_free-set es k e (omega arith))

init_entries-free :
    (left : ℕ → Entry) (n i : ℕ)
    → (length (init_entries left n i) ≡ n) × (count_free (init_entries left n i) ≡ n)
unfolding init_entries
init_entries-free left zero i = (refl, refl)
init_entries-free left (suc n) i =
    let rest = init_entries-free left n (i + 1) in (omega (arith, rest.0), omega (arith, rest.1))

-- `merry_loader_init` makes every entry free.
pub init-IsValid : (left : ℕ → Entry) (n : ℕ) (l : Loader) → init true left n ≡ some l → IsValid l
unfolding init
init-IsValid left n l e =
    let entries = init_entries-free left n 0 in
    subst IsValid (ap (λ o. elim o [ none ↦ l | some x ↦ x ]) e)
      (record { counted = sym entries.0; closed_counted = sym entries.1 })

pub unload_lib-IsValid : (l : Loader) (handle : ℕ) → IsValid l → IsValid (unload_lib l handle).1
unfolding unload_lib
unload_lib-IsValid l handle v =
    let e = get_or l.entries handle no_entry in
    elim (Bool-cases (leb l.entry_count handle)) [
      | inl out ↦ rw out v
      | inr inside ↦ elim (Bool-cases e.handle_open) [
        | inl free ↦ rw (inside, free) v
        | inr taken ↦
            rw (inside, taken)
              (record {
                counted =
                    v.counted ∙ sym (length-set l.entries handle (record e { handle_open = true }));
                closed_counted = omega (
                  arith,
                  v.closed_counted,
                  ap flag_count taken,
                  count_free-set l.entries handle (record e { handle_open = true })
                      (ground (arith, v.counted)),
                );
              })
      ]
    ]

-- Opening a library for a free entry.
open_entry-IsValid :
    (h : Host) (l : Loader) (path : List ℕ) (handle : ℕ)
    → IsValid l
    → handle < length l.entries
    → (get_or l.entries handle no_entry).handle_open ≡ true
    → IsValid (open_entry h l path handle).2
unfolding open_entry
open_entry-IsValid h l path handle v lt free =
    let e = get_or l.entries handle no_entry in
    let lib = h.dlopen path in
    elim (Bool-cases (lib == 0)) [
      | inl failed ↦ rw failed (record {
        counted = v.counted ∙ sym (length-set l.entries handle (record e { lib_handle = 0 }));
        closed_counted = omega (
          arith,
          v.closed_counted,
          count_free-set l.entries handle (record e { lib_handle = 0 }) lt,
        );
      })
      | inr opened ↦
          let e' : Entry = record { entry_name = path; lib_handle = lib; handle_open = false } in
          rw opened (record {
            counted = v.counted ∙ sym (length-set l.entries handle e');
            closed_counted = omega (
              arith,
              v.closed_counted,
              ap flag_count free,
              count_free-set l.entries handle e' lt,
            );
          })
    ]

-- A load that finds a library or a free entry, whether it succeeds or dlopen fails, keeps the
-- counters of the table right.
pub load_lib-IsValid :
    (h : Host) (l : Loader) (path : List ℕ)
    → 0 < l.closed_entry_count
    → IsValid l
    → IsValid (load_lib h l path).2
unfolding load_lib
load_lib-IsValid h l path room v = elim (Bool-cases (ltb (check_entry l path) l.entry_count)) [
  | inl known ↦ rw known v
  | inr new ↦
      let some_free : ltb 0 l.closed_entry_count ≡ true = ground arith in
      let found =
        find_free-found l.entries 0 (l.entry_count + 1) (ground (arith, v.closed_counted)) in
      let at : find_free_handle l ≡ found.0 = found.1 ∙ omega arith in
      rw (new, some_free, at) (open_entry-IsValid h l path found.0 v found.2 found.3)
]
