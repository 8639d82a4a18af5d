-- ===== src/Main/Code.antt =====
-- The exit code of main.c, and what it needs to get to the machine.
use merry_v.Common.{
  ℕ, ◌≡◌, refl, ap, ◌∙◌, Bool, true, false, some, List, [], ◌∷◌, ◌==◌, if◌then◌else◌, length,
  Bool-cases, Option-cases, inl, inr, not, ◌&&◌, ◌||◌, ltb,
}
use merry_v.Core.Lifecycle.{null as null_pointer, junk as junk_pointer, releases}
use merry_v.Os.Release as Release
use merry_v.Reader.Release as ReaderRelease
use merry_v.Reader.{Reader}
use merry_v.Reader.Load.{Loaded, loaded, failure, corrupted, unending}
use merry_v.Os.{Os}
use merry_v.Os.Init.{init_data}
use merry_v.Os.Init
use merry_v.Options.{Text, Clp, null, parsed, parse_options, destroy_parser}
use merry_v.Options.Parse.{Wish, flag_f, render, granted, parse_options-render}
use merry_v.Main.{
  World, up, faulted, exits, crashes, exit_failure, boot_loaded, boot_read, os_init, run_machine,
  passed_options, after_init, with_options, main,
}

main-parsed :
    (w : World) (fuel : ℕ) (args : List Text) (clp : Clp)
    → parse_options w.clp w.options_ok args ≡ parsed clp
    → main w fuel args ≡ with_options w fuel clp
unfolding main
main-parsed w fuel args clp e = rw (main, e) refl

-- What is not there for `merry_os_destroy` once the machine has ended: munmap takes what the process
-- uses, a library was loaded behind the end of the loader's table, the cores are counted past the
-- end of their table, or the file has no sections or no strings and malloc left a stray pointer.
abbrev pub spoiled : World → Reader → Os → Bool
spoiled w r o =
    not (w.unmaps o)
    || o.loader.overrun
    || ltb (length o.cores) o.core_count
    || r.sst_len == 0 && not (releases w.reader_left.sections)
    || not (r.ste_flag && ltb 0 r.st_len) && not (releases w.reader_left.st_data)

-- Without options the count is not looked at if it is 0, and the first option is read otherwise.
boot_loaded-null :
    (w : World) (x : Reader) (count : ℕ) (r : Reader) (os : Os)
    → boot_loaded w x null 0 ≡ up r os
    → boot_loaded w x null count ≡ (if count == 0 then up r os else faulted)
unfolding boot_loaded Init.init
boot_loaded-null w x count r os e = elim (Option-cases (init_data w.start x [] w.option_memory)) [
  | inl nothing ↦ absurd (cc (rw nothing at e))
  | inr (m, there) ↦ elim (Bool-cases (count == 0)) [
    | inl zero_count ↦ rw zero_count e
    | inr more ↦ rw (more, there) refl
  ]
]

boot_read-null :
    (w : World) (l : Loaded) (count : ℕ) (r : Reader) (os : Os)
    → boot_read w l null 0 ≡ up r os
    → boot_read w l null count ≡ (if count == 0 then up r os else faulted)
unfolding boot_read
boot_read-null w (loaded x) count r os e = boot_loaded-null w x count r os e
boot_read-null w failure count r os e = absurd (cc e)
boot_read-null w corrupted count r os e = absurd (cc e)
boot_read-null w unending count r os e = absurd (cc e)

-- The same of the file's reading: what comes up without options comes up with a count of 0, and reads
-- the first of no options otherwise.
os_init-null :
    (w : World) (path : Text) (count : ℕ) (r : Reader) (os : Os)
    → os_init w path null 0 ≡ up r os
    → os_init w path null count ≡ (if count == 0 then up r os else faulted)
unfolding os_init
os_init-null w path count r os e = elim (Bool-cases w.reader_ok) [
  | inl there ↦ elim (Option-cases (w.open_file path)) [
    | inl missing ↦ absurd (cc (rw (there, missing) at e))
    | inr (bytes, opened) ↦
        rw (there, opened) (boot_read-null w _ count r os (rw (there, opened) at e))
  ]
  | inr out ↦ absurd (cc (rw out at e))
]

with_options-null :
    (w : World) (fuel : ℕ) (clp : Clp) (r : Reader) (os : Os)
    → clp.help ≡ false
    → clp.file ≡ true
    → clp.clo ≡ false
    → os_init w clp.file_value null 0 ≡ up r os
    → with_options w fuel clp ≡ (
        if clp.option_count == 0
        then (if destroy_parser clp then run_machine w fuel r os else crashes)
        else crashes)
unfolding with_options after_init
with_options-null w fuel clp r os help file clo init =
    opened (clp.help) clp.file help file
    ∙ ap (λ o. after_init w fuel clp (os_init w clp.file_value o clp.option_count))
        {x = passed_options clp} {y = null} (ap (λ b. if b then clp.options else null) clo)
    ∙ ap (after_init w fuel clp) (os_init-null w clp.file_value clp.option_count r os init)
    ∙ after_count (clp.option_count == 0)
  where
    opened :
        (h f : Bool)
        → h ≡ false
        → f ≡ true
        → (if h
            then (if destroy_parser clp then exits 0 else crashes)
            else (if f
                then after_init w fuel clp
                    (os_init w clp.file_value (passed_options clp) clp.option_count)
                else (if destroy_parser clp then exits exit_failure else crashes)))
          ≡ after_init w fuel clp (os_init w clp.file_value (passed_options clp) clp.option_count)
    opened h f no_help given = rw (no_help, given) refl

    after_count :
        (b : Bool)
        → after_init w fuel clp (if b then up r os else faulted) ≡ (
            if b
            then (if destroy_parser clp then run_machine w fuel r os else crashes)
            else crashes)
    after_count true = refl
    after_count false = refl

-- With a path alone on the command line, for a file with which the machine comes up, and the
-- flags of the help and of "--" left clear by malloc, the process reads through a NULL pointer
-- unless the count that malloc left is 0; if it is, and the array left is no stray pointer, the
-- machine runs.
pub main-plain :
    (w : World) (fuel : ℕ) (path : Text) (left : Clp) (r : Reader) (os : Os)
    → w.clp ≡ some left
    → w.options_ok ≡ true
    → left.help ≡ false
    → left.clo ≡ false
    → os_init w path null 0 ≡ up r os
    → main w fuel (flag_f ∷ path ∷ []) ≡ (
        if left.option_count == 0
        then (if destroy_parser left then run_machine w fuel r os else crashes)
        else crashes)
unfolding destroy_parser
main-plain w fuel path left r os clp room help clo init =
    let wish : Wish = record { help = false; ver = false; path = path; options = [] } in
    main-parsed w fuel (render wish) (granted wish left)
      (rw (clp, room) (parse_options-render wish left))
    ∙ with_options-null w fuel (granted wish left) r os help refl clo init
