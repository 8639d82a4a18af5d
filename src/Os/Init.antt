-- ===== src/Os/Init.antt =====
-- The start of the operating system, `merry_os_init` of merry/merry_os.c, from what the reader has
-- loaded. Where it returns RET_FAILURE the result is `none`; Release has what
-- `merry_os_destroy` then does.
use merry_v.Common.{
  ℕ, zero, suc, ◌+◌, Bool, false, Option, none, some, List, [], ◌∷◌, ltb, if◌then◌else◌, wrap,
  length,
}
use merry_v.Block.Runs.{slice}
use merry_v.DMemory.{DMemory, Page, add_new_page}
use merry_v.DMemory
use merry_v.DMemory.Bytes.{write_bytes}
use merry_v.Memory.{Memory, MemPage}
use merry_v.Memory
use merry_v.Queue.{Request}
use merry_v.Queue
use merry_v.RequestHdlr.{RequestHdlr}
use merry_v.RequestHdlr
use merry_v.Loader.{Loader, Entry}
use merry_v.Loader
use merry_v.Reader.{Reader}
use merry_v.Reader.Load.{pointer}
use merry_v.Os.{Os, VCore, new_vcore, set_reg, reg_md}

-- The outcomes of the allocations of `merry_os_init`, in its order: the data memory, a page more and
-- a page more of it, the instruction memory, the table of cores, each core, the condition variable,
-- the lock, the queue, its nodes with what malloc left in them, its lock, the table of threads and the loader. `bytes_at` is the memory
-- behind a page pointer, as bytes.
pub record Start : Type 0 where
  pub data_host : DMemory.Host
  pub bytes_at : ℕ → Page
  pub realloc_ok : Bool
  pub page_ok : Bool
  pub fresh : Page
  pub inst_struct_ok : Bool
  pub inst_array_ok : Bool
  pub inst_page_ok : ℕ → Bool
  pub cores_ok : Bool
  pub core_ok : ℕ → Bool
  pub cond_ok : Bool
  pub lock_ok : Bool
  pub queue_ok : Bool
  pub node_ok : ℕ → Bool
  pub node_next : ℕ → ℕ
  pub node_value : ℕ → Request
  pub hdlr_lock_ok : Bool
  pub threads_ok : Bool
  pub loader_ok : Bool
  pub left : ℕ → Entry

-- _MERRY_REQUEST_QUEUE_LEN_
abbrev pub request_queue_len : ℕ
request_queue_len = 10

-- Registers Mm1 and Mm5
abbrev pub reg_mm1 : ℕ
reg_mm1 = 11

abbrev pub reg_mm5 : ℕ
reg_mm5 = 15

-- The sum of `strlen` over the options.
unfoldable pub options_len : List ℕ → ℕ → ℕ
options_len [] len = len
options_len (n ∷ lens) len = options_len lens (wrap (len + n))

-- `merry_dmemory_write_bytes_maybe_over_multiple_pages`, and once more with a page more if it fails.
unfoldable pub write_options : Start → DMemory → ℕ → List ℕ → Option DMemory
unfolding write_bytes add_new_page
write_options s m address bytes =
    let (written, m1) = write_bytes m address (some bytes) in
    let (added, m2) = add_new_page s.realloc_ok s.page_ok s.fresh m1 in
    let (again, m3) = write_bytes m2 address (some bytes) in
    if written then some m1 else (if added then (if again then some m3 else none) else none)

-- The loop that makes the cores from core `i` on, with `n` rounds left.
unfoldable pub make_cores : (ℕ → Bool) → ℕ → ℕ → Option (List VCore)
make_cores core_ok zero i = some []
make_cores core_ok (suc n) i =
    let rest = make_cores core_ok n (i + 1) in
    if core_ok i then elim rest [ none ↦ none | some cores ↦ some (new_vcore ∷ cores) ] else none

-- The machine once memories, cores and handlers are there.
abbrev pub new_os : Reader → DMemory → Memory → List VCore → RequestHdlr → Loader → Os
new_os r data_mem inst_mem cores hdlr loader = record {
  eat = r.eat;
  cores = cores;
  data_mem = data_mem;
  inst_mem = inst_mem;
  core_count = r.eat_entry_count;
  active_core_count = 0;
  stop = false;
  ret = 0;
  locked = false;
  hdlr = hdlr;
  loader = loader;
  effects = [];
  calls = [];
}

-- The registers of core 0 that tell the program of its options.
abbrev pub tell_options : Reader → ℕ → ℕ → Os → Os
tell_options r count len os =
    set_reg 0 reg_mm5 (wrap (len + r.data_len + 1))
      (set_reg 0 reg_md (wrap (r.data_len + 1)) (set_reg 0 reg_mm1 count os))

-- The parts of `merry_os_init`: the data memory with the options in it, the instruction memory, the
-- cores, the request handler with what it waits on, and the loader.
unfoldable pub init_data : Start → Reader → List ℕ → (ℕ → ℕ) → Option DMemory
unfolding DMemory.init_provided options_len write_options
init_data s r lens options =
    elim (DMemory.init_provided s.data_host (λ i. s.bytes_at (pointer r.data_table i))
      r.data_page_count) [
        | none ↦ none
        | some m ↦
            if ltb 0 (length lens)
            then write_options s m (wrap (r.data_len + 1)) (slice options 0 (options_len lens 0))
            else some m
      ]

unfoldable pub init_inst : Start → Reader → Option Memory
unfolding Memory.init_provided
init_inst s r =
    Memory.init_provided s.inst_struct_ok s.inst_array_ok s.inst_page_ok
      (λ i. r.heap (pointer r.instructions i)) r.inst_page_count

unfoldable pub init_cores : Start → Reader → Option (List VCore)
unfolding make_cores
init_cores s r = if s.cores_ok then make_cores s.core_ok r.eat_entry_count 0 else none

unfoldable pub init_hdlr : Start → Option RequestHdlr
unfolding RequestHdlr.init Queue.init
init_hdlr s =
    let queue = Queue.init s.queue_ok s.node_ok s.node_next s.node_value request_queue_len in
    if s.cond_ok then (if s.lock_ok then RequestHdlr.init queue s.hdlr_lock_ok else none) else none

unfoldable pub init_loader : Start → Option Loader
unfolding Loader.init
init_loader s = if s.threads_ok then Loader.init s.loader_ok s.left 2 else none

-- `merry_os_init` with the lengths of the options and the memory from the first of them on: as many
-- bytes of it are written as the options have, the NULs between the options among them.
unfoldable pub init : Start → Reader → List ℕ → (ℕ → ℕ) → Option Os
unfolding init_data init_inst init_cores init_hdlr init_loader
init s r lens options = elim (init_data s r lens options) [
  | none ↦ none
  | some data_mem ↦ elim (init_inst s r) [
    | none ↦ none
    | some inst_mem ↦ elim (init_cores s r) [
      | none ↦ none
      | some cores ↦ elim (init_hdlr s) [
        | none ↦ none
        | some hdlr ↦ elim (init_loader s) [
          | none ↦ none
          | some loader ↦ some (
              tell_options r (length lens) (options_len lens 0)
                (new_os r data_mem inst_mem cores hdlr loader))
        ]
      ]
    ]
  ]
]
