-- ===== src/Os/Release.antt =====
-- `merry_os_destroy` of merry/merry_os.c, and what `merry_os_init` leaves for it when it fails, seen by
-- the pointers of `struct Merry` and of the request handler.
use merry_v.Common.{
  ℕ, zero, suc, ◌≡◌, refl, Bool, true, false, ◌&&◌, ◌||◌, not, ◌==◌, if◌then◌else◌, arith,
}
use merry_v.Core.Lifecycle.{
  Pointer, null, junk, owned, map_failed, returned, releases, give_back, granted,
}
use merry_v.Reader.Release as ReaderRelease

-- The pointers, NULL before the start, and `slots` for the entries of the table of threads. A pointer to
-- what was released already is no better than one that was never set. The instruction and the data
-- memory stand for their pages too, whatever munmap makes of those; the table of cores for its cores.
pub record Parts : Type 0 where
  pub data_mem : Pointer
  pub inst_mem : Pointer
  pub lock : Pointer
  pub cond : Pointer
  pub cores : Pointer
  pub core_count : ℕ
  pub threads : Pointer
  pub slots : Pointer
  pub reader : ReaderRelease.Parts
  pub queue : Pointer

-- The loop over the entries of a table that are all alike, with `n` left.
unfoldable pub release_slots : Pointer → ℕ → Bool
unfolding releases
release_slots slot zero = true
release_slots slot (suc n) = let rest = release_slots slot n in releases slot && rest

abbrev pub release_threads : Parts → Bool
release_threads p = elim p.threads [
  | null ↦ true
  | owned ↦ release_slots p.slots p.core_count
  | junk ↦ false
  | map_failed ↦ false
  | returned ↦ false
]

-- `merry_os_destroy`: whether it only releases what there is. The functions that it calls test for
-- NULL, and the loader closes nothing that was not opened.
unfoldable pub destroy : Parts → Bool
unfolding releases release_slots ReaderRelease.destroy
destroy p =
    releases p.data_mem
    && releases p.inst_mem
    && releases p.lock
    && releases p.cond
    && releases p.cores
    && release_threads p
    && ReaderRelease.destroy p.reader
    && releases p.queue

-- Which steps of `merry_os_init` succeed behind the data memory, in its order: the options, the
-- instruction memory, the table of cores, all cores or `made` of them, the condition variable, the
-- lock, the queue, the handler's lock, the table of threads and the loader.
pub record Successes : Type 0 where
  pub options : Bool
  pub inst_mem : Bool
  pub table : Bool
  pub cores : Bool
  pub made : ℕ
  pub cond : Bool
  pub lock : Bool
  pub queue : Bool
  pub hdlr_lock : Bool
  pub threads : Bool
  pub loader : Bool

-- The machine is there; `merry_os_init` returns RET_FAILURE; or it releases what is not there.
pub data Outcome : Type 0 where
  started : Parts → Outcome
  failed faulted : Outcome

-- `goto failure;`
abbrev pub fails : Parts → Outcome
fails p = if destroy p then failed else faulted

-- `merry_os_init` behind the data memory, with `count` cores to make and a reader that has read its
-- file.
unfoldable pub init_parts : Successes → ℕ → ReaderRelease.Parts → Outcome
unfolding destroy
init_parts s count reader =
    let p0 : Parts = record {
      data_mem = owned;
      inst_mem = null;
      lock = null;
      cond = null;
      cores = null;
      core_count = 0;
      threads = null;
      slots = null;
      reader = reader;
      queue = null;
    } in
    let p1 = record p0 { inst_mem = granted s.inst_mem } in
    let p2 = record p1 { cores = granted s.table } in
    let p3 = record p2 { core_count = if s.cores then count else s.made } in
    let p4 = record p3 { cond = granted s.cond } in
    let p5 = record p4 { lock = granted s.lock } in
    let p6 = record p5 {
      queue = if s.queue then (if s.hdlr_lock then owned else junk) else null;
    } in
    let p7 = record p6 { threads = granted s.threads; slots = junk } in
    if s.options
    then (if s.inst_mem
        then (if s.table
            then (if s.cores
                then (if s.cond
                    then (if s.lock
                        then (if s.queue && s.hdlr_lock
                            then (if s.threads
                                then (if s.loader then started p7 else fails p7)
                                else fails p7)
                            else fails p6)
                        else fails p5)
                    else fails p4)
                else fails p3)
            else fails p2)
        else fails p1)
    else fails p0

abbrev pub all_made : Successes → Bool
all_made s = s.options && s.inst_mem && s.table && s.cores && s.cond && s.lock && s.queue

abbrev pub succeeds : Successes → Bool
succeeds s = all_made s && s.hdlr_lock && s.threads && s.loader

-- The two failures behind which there is something of the machine that is not to be released.
abbrev pub traps : Successes → ℕ → Bool
traps s count = all_made s && (not s.hdlr_lock || s.threads && not s.loader && not (count == 0))

-- What comes of a start.
abbrev pub Accounted : Successes → ℕ → Outcome → Type 0
Accounted s count (started p) = succeeds s ≡ true
Accounted s count failed = traps s count ≡ false
Accounted s count faulted = traps s count ≡ true

-- A start that fails behind the data memory returns RET_FAILURE where every pointer of the reader may be
-- released, but for two failures, when all before has succeeded: without the handler's lock the queue
-- is released twice, and without the loader's table, if there are cores, entries of the table of
-- threads that were never set are released.
pub init_parts-Accounted :
    (s : Successes) (count : ℕ) (reader : ReaderRelease.Parts)
    → ReaderRelease.destroy reader ≡ true
    → Accounted s count (init_parts s count reader)
unfolding init_parts release_slots releases give_back
init_parts-Accounted s count reader e =
    go s.options s.inst_mem s.table s.cores s.cond s.lock s.queue s.hdlr_lock s.threads s.loader
      count
  where
    go :
        (options inst_mem table cores cond lock queue hdlr_lock threads loader : Bool) (n : ℕ)
        → let s' : Successes = record {
          options = options;
          inst_mem = inst_mem;
          table = table;
          cores = cores;
          made = s.made;
          cond = cond;
          lock = lock;
          queue = queue;
          hdlr_lock = hdlr_lock;
          threads = threads;
          loader = loader;
        } in
          Accounted s' n (init_parts s' n reader)
    go false i t c co l q h th lo n = rw e refl
    go true false t c co l q h th lo n = rw e refl
    go true true false c co l q h th lo n = rw e refl
    go true true true false co l q h th lo n = rw e refl
    go true true true true false l q h th lo n = rw e refl
    go true true true true true false q h th lo n = rw e refl
    go true true true true true true false h th lo n = rw e refl
    go true true true true true true true false th lo n = rw e refl
    go true true true true true true true true false lo n = rw e refl
    go true true true true true true true true true true n = refl
    go true true true true true true true true true false zero = rw e refl
    go true true true true true true true true true false (suc n) = ground arith
