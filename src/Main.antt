-- ===== src/Main.antt =====
-- `main` of main.c: the command line, the start of the machine from the file, its run in a thread,
-- the release of the machine, and the exit code. What `merry_os_init` releases when it fails is in
-- Os/Release; that cores may still run while `merry_os_destroy` works is left out.
pub mod Code
mod Tests
use merry_v.Common.{
  ℕ, suc, ◌%◌, Bool, not, ◌&&◌, Option, none, some, List, [], ◌∷◌, ltb, ◌==◌, if◌then◌else◌, map,
  length,
}
use merry_v.Memory.{MemPage}
use merry_v.Core.Lifecycle.{Pointer, junk as junk_pointer, owned}
use merry_v.Os.Release as Release
use merry_v.Reader.Release as ReaderRelease
use merry_v.Reader.{Reader, init_reader}
use merry_v.Reader
use merry_v.Reader.Load.{Loaded, loaded, failure, corrupted, unending, read_file}
use merry_v.Os.{Os, ret_success}
use merry_v.Os
use merry_v.Os.Init.{Start, init_data}
use merry_v.Os.Init
use merry_v.Os.Run.{Round, ended, served, slept, blocked, start_vm}
use merry_v.Thread.{create_thread, thread_init, thread_join, Held}
use merry_v.Thread
use merry_v.Options.{
  Text, Clp, OptionArray, null, junk, array, Parsed, refused, parsed, parse_options, destroy_parser,
}

-- What the process meets: the structure and the array of the parser, the reader's file, its
-- allocations and what they leave (`reader_left` of the pointers that are released at the end), the
-- outcomes of `merry_os_init`, the memory from the first option
-- of the program on, the threads, the run of the machine, and whether
-- munmap of its pages spares what the process still uses.
pub record World : Type 0 where
  pub clp : Option Clp
  pub options_ok : Bool
  pub reader_ok : Bool
  pub open_file : Text → Option (List ℕ)
  pub reader : Reader.Host
  pub left : ℕ → ℕ
  pub reader_left : ReaderRelease.Parts
  pub heap : ℕ → MemPage
  pub start : Start
  pub option_memory : ℕ → ℕ
  pub threads : Thread.Host
  pub held : Held
  pub hosts : ℕ → Os.Host
  pub meanwhile : ℕ → Os → Os
  pub unmaps : Os → Bool

-- How `merry_os_init` ends, with the reader and the machine if they are there; `faulted` is a read
-- through a NULL or stray pointer, or a write behind the end of a block.
pub data Booted : Type 0 where
  up : Reader → Os → Booted
  down faulted spinning : Booted

-- The part of `merry_os_init` behind the reader: the options are read once the data memory is there.
unfoldable pub boot_loaded : World → Reader → OptionArray → ℕ → Booted
unfolding init_data Init.init
boot_loaded w r (array args) count = elim (Init.init w.start r (map length args) w.option_memory) [
  | none ↦ down
  | some os ↦ up r os
]
boot_loaded w r _ count =
    if count == 0
    then elim (Init.init w.start r [] w.option_memory) [ none ↦ down | some os ↦ up r os ]
    else elim (init_data w.start r [] w.option_memory) [ none ↦ down | some m ↦ faulted ]

-- `merry_os_init` behind `merry_reader_read_file`, and the whole of it.
unfoldable pub boot_read : World → Loaded → OptionArray → ℕ → Booted
unfolding boot_loaded
boot_read w (loaded r) options count = boot_loaded w r options count
boot_read w failure options count = down
boot_read w corrupted options count = faulted
boot_read w unending options count = spinning

unfoldable pub os_init : World → Text → OptionArray → ℕ → Booted
unfolding boot_read read_file init_reader
os_init w path options count =
    if w.reader_ok
    then elim (w.open_file path) [
      | none ↦ down
      | some bytes ↦
          boot_read w (read_file w.reader bytes (init_reader w.left w.heap bytes)) options count
    ]
    else down

-- How the process ends: with an exit code, by a fault, or not at all: it waits or spins for ever, or
-- runs longer than the rounds given.
pub data Exit : Type 0 where
  exits : ℕ → Exit
  crashes hangs running : Exit

-- `return -1`, as an exit code of 32 bits
abbrev pub exit_failure : ℕ
exit_failure = 4294967295

-- `merry_os_destroy`, with the entries of the table of threads as `slots`: whether it only releases what
-- there is. A loader that has left its table has damaged the heap; a table of cores that is shorter
-- than their count is read behind its end.
unfoldable pub os_destroy : World → Reader → Pointer → Os → Bool
unfolding Release.destroy ReaderRelease.read_parts
os_destroy w r slots os =
    w.unmaps os
    && not os.loader.overrun
    && Release.destroy (record {
      data_mem = owned;
      inst_mem = owned;
      lock = owned;
      cond = owned;
      cores = if ltb (length os.cores) os.core_count then junk_pointer else owned;
      core_count = os.core_count;
      threads = owned;
      slots = slots;
      reader = ReaderRelease.read_parts w.reader_left r;
      queue = owned;
    })

-- The end of `main` with an exit code.
abbrev pub leave : World → Reader → Pointer → Os → ℕ → Exit
leave w r slots os code = if os_destroy w r slots os then exits code else crashes

-- The thread of the machine, joined, and the release of the machine, whose cores have been given their
-- threads: `returnval` is 0 before.
unfoldable pub joined : World → Reader → Option ℕ → Round → Exit
unfolding thread_join os_destroy
joined w r thread (ended os) =
    let (_, returnval) = thread_join thread 0 in leave w r owned os (returnval % 4294967296)
joined w r thread (served os) = running
joined w r thread (slept os) = running
joined w r thread blocked = hangs

-- Where no thread runs the machine, its table of threads is what malloc left.
unfoldable pub run_machine : World → ℕ → Reader → Os → Exit
unfolding thread_init create_thread start_vm joined os_destroy
run_machine w fuel r os =
    let (thread, held) = thread_init w.threads w.held in
    let (status, _) = create_thread w.threads thread held in
    elim thread [
      | none ↦ leave w r junk_pointer os exit_failure
      | some t ↦
          if status == ret_success
          then joined w r (some t) (start_vm w.hosts w.meanwhile fuel os)
          else leave w r junk_pointer os exit_failure
    ]

-- What `main` passes to `merry_os_init`.
abbrev pub passed_options : Clp → OptionArray
passed_options clp = if clp.clo then clp.options else null

-- The machine is up: the parser is destroyed, and the machine runs.
unfoldable pub after_init : World → ℕ → Clp → Booted → Exit
unfolding destroy_parser run_machine
after_init w fuel clp (up r os) = if destroy_parser clp then run_machine w fuel r os else crashes
after_init w fuel clp down = if destroy_parser clp then exits exit_failure else crashes
after_init w fuel clp faulted = crashes
after_init w fuel clp spinning = hangs

-- `main` once the options are parsed.
unfoldable pub with_options : World → ℕ → Clp → Exit
unfolding os_init after_init destroy_parser
with_options w fuel clp =
    if clp.help
    then (if destroy_parser clp then exits 0 else crashes)
    else (if clp.file
        then after_init w fuel clp (os_init w clp.file_value (passed_options clp) clp.option_count)
        else (if destroy_parser clp then exits exit_failure else crashes))

-- `main`; the arguments are those behind the program's name.
unfoldable pub main : World → ℕ → List Text → Exit
unfolding parse_options with_options
main w fuel args = elim (parse_options w.clp w.options_ok args) [
  | refused complaint ↦ exits exit_failure
  | parsed clp ↦ with_options w fuel clp
]
