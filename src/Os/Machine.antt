-- ===== src/Os/Machine.antt =====
-- The machine as a whole: the operating system of merry/merry_os.c and the cores take steps in any
-- order.
use mathlib.Core.Path.{subst}
use merry_v.Common.{
  ℕ, ◌<◌, ◌≡◌, ◌∙◌, true, Option, none, some, [], ◌∷◌, ◌++◌, arith, ◌==◌, leb, set, length-set,
  Bool-cases, inl, inr,
}
use merry_v.DMemory.{DMemory}
use merry_v.Memory.{Memory}
use merry_v.Queue.{Request}
use merry_v.RequestHdlr.{push_request_hdlr, pop_request_hdlr, signal}
use merry_v.Os.{Os, VCore, Host, panic, handle_error}
use merry_v.Os.Run.{execute, service, serve, Round, ended, served, slept, blocked, run_round}
use merry_v.Os.Frames.{frame}
use merry_v.Os.Counted.{Counted, AllCounted, execute-Counted, prepare_for_exit-Counted}

-- A step of the machine: a round of the loop of the operating system, what a core does to its own
-- state and to the memories, its requests and its panics.
pub data Step : Os → Os → Type 0 where
  os_serves : {os os' : Os} (h : Host) → run_round h os ≡ served os' → Step os os'
  os_sleeps : {os os' : Os} (h : Host) → run_round h os ≡ slept os' → Step os os'
  core_works :
      {os : Os} (id : ℕ) (c : VCore) (data_mem : DMemory) (inst_mem : Memory)
      → Step os (record os { cores = set os.cores id c; data_mem = data_mem; inst_mem = inst_mem })
  core_requests :
      {os : Os} (number id : ℕ) (cond : Option ℕ)
      → Step os (record os {
        hdlr = (push_request_hdlr os.hdlr number id cond).2;
        effects = os.effects ++ (push_request_hdlr os.hdlr number id cond).1;
      })
  core_panics : {os : Os} (error : ℕ) → Step os (panic error os)

pub data Steps : Os → Os → Type 0 where
  here : {os : Os} → Steps os os
  then_step : {os os' os'' : Os} → Step os os' → Steps os' os'' → Steps os os''

abbrev pub wake : Request → Os → Os
wake req os = record os { effects = os.effects ++ (signal req.wait_lock ∷ []) }

-- The state that a round leaves is counted.
abbrev pub RoundCounted : Round → Type 0
RoundCounted (ended os) = Counted (frame os)
RoundCounted (served os) = Counted (frame os)
RoundCounted (slept os) = Counted (frame os)
RoundCounted blocked = Unit

wake-Counted :
    (req : Request) (o : Option Os)
    → AllCounted o
    → AllCounted (elim o [ none ↦ none | some os ↦ some (wake req os) ])
wake-Counted req none v = tt
wake-Counted req (some os) v = v

serve-Counted :
    (h : Host) (req : Request) (os : Os)
    → 0 < os.active_core_count
    → Counted (frame os)
    → AllCounted (serve h req os)
unfolding serve handle_error
serve-Counted h req os pos v = elim (Bool-cases (leb req.request_number 150)) [
  | inl error ↦ rw error (prepare_for_exit-Counted (handle_error os) v)
  | inr request ↦ rw request (
      wake-Counted req (execute h (service req.request_number) req.id os)
        (execute-Counted h (service req.request_number) req.id os pos v))
]

served-Counted :
    (o : Option Os) → AllCounted o → RoundCounted (elim o [ none ↦ blocked | some os ↦ served os ])
served-Counted none v = tt
served-Counted (some os) v = v

popped-Counted :
    (h : Host) (os : Os) (out : Option Request)
    → 0 < os.active_core_count
    → Counted (frame os)
    → RoundCounted (elim out [
      | none ↦ slept (record os { locked = true })
      | some req ↦ elim (serve h req os) [ none ↦ blocked | some next ↦ served next ]
    ])
popped-Counted h os none pos v = record {
  counted = v.counted;
  active_le = v.active_le;
  small = v.small;
}
popped-Counted h os (some req) pos v =
    served-Counted (serve h req os) (serve-Counted h req os pos v)

run_round-Counted : (h : Host) (os : Os) → Counted (frame os) → RoundCounted (run_round h os)
unfolding run_round
run_round-Counted h os v = elim (Bool-cases os.stop) [
  | inl stopped ↦
      rw stopped (record { counted = v.counted; active_le = v.active_le; small = v.small })
  | inr going ↦ elim (Bool-cases (os.active_core_count == 0)) [
    | inl idle ↦
        rw (going, idle) (record { counted = v.counted; active_le = v.active_le; small = v.small })
    | inr busy ↦
        rw (going, busy)
          (popped-Counted h (record os { hdlr = (pop_request_hdlr os.hdlr).2 })
            (pop_request_hdlr os.hdlr).1 (ground arith)
            (record { counted = v.counted; active_le = v.active_le; small = v.small }))
  ]
]

-- Every step keeps the table of cores as long as it says, and no more cores active than there are.
pub Step-Counted : {os os' : Os} → Step os os' → Counted (frame os) → Counted (frame os')
unfolding panic
Step-Counted {os} (os_serves h e) v = subst RoundCounted e (run_round-Counted h os v)
Step-Counted {os} (os_sleeps h e) v = subst RoundCounted e (run_round-Counted h os v)
Step-Counted {os} (core_works id c m m') v = record {
  counted = length-set os.cores id c ∙ v.counted;
  active_le = v.active_le;
  small = v.small;
}
Step-Counted (core_requests number id cond) v = v
Step-Counted (core_panics error) v = v

-- Whatever the cores and the operating system do, in any order, the table of cores stays as
-- long as it says, and no more cores are active than there are, if it was so before.
pub Steps-Counted : {os os' : Os} → Steps os os' → Counted (frame os) → Counted (frame os')
Steps-Counted here v = v
Steps-Counted (then_step s more) v = Steps-Counted more (Step-Counted s v)
