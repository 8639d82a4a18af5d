-- ===== src/Os/Failures.antt =====
-- What an error does to the machine of merry/merry_os.c.
use merry_v.Common.{
  ℕ, zero, suc, ◌+◌, ◌≤◌, ◌<◌, ◌≡◌, refl, ap, ◌∙◌, Bool, true, false, Option, none, some, List, [],
  ◌∷◌, ◌++◌, arith, ◌==◌, leb, if◌then◌else◌, length, word_mod,
}
use merry_v.DMemory.{fault, mem_invalid_access, DMemory, deduce_address}
use merry_v.DMemory.Address.{get_byte_address}
use merry_v.Core.{reg_ma}
use merry_v.Queue.{Request}
use merry_v.Queue.Fifo.{IsRing}
use merry_v.Queue.Panic.{panic_request}
use merry_v.RequestHdlr.Laws.{panic-stops}
use merry_v.RequestHdlr.{RequestHdlr, pop_request_hdlr, signal}
use merry_v.Os.{Os, VCore, Host, reg, panic, prepare_for_exit, stop_cores, handle_error}
use merry_v.Os.Requests.{execute_dynl}
use merry_v.Os.Run.{execute, service, serve, ended, served, slept, blocked, run_round}

-- Every core has been told to stop.
abbrev pub AllStopped : List VCore → Type 0
AllStopped [] = Unit
AllStopped (c ∷ cores) = (c.stop_running ≡ true) × AllStopped cores

stop_cores-AllStopped :
    (n : ℕ) (cores : List VCore) → length cores ≤ n → AllStopped (stop_cores n cores)
unfolding stop_cores
stop_cores-AllStopped zero [] le = tt
stop_cores-AllStopped (suc n) [] le = tt
stop_cores-AllStopped zero (c ∷ cores) le = absurd (omega arith)
stop_cores-AllStopped (suc n) (c ∷ cores) le = (refl, stop_cores-AllStopped n cores (omega arith))

-- A round that pops an error, of the modules or of the program, ends the machine: all cores are told
-- to stop, the result is 0, and the next round finds that the loop has ended.
pub run_round-error :
    (h next : Host) (os : Os) (req : Request)
    → os.stop ≡ false
    → 0 < os.active_core_count
    → length os.cores ≡ os.core_count
    → (pop_request_hdlr os.hdlr).1 ≡ some req
    → req.request_number ≤ 150
    → (o : Os) × (run_round h os ≡ served o)
      × AllStopped o.cores
      × (o.ret ≡ 0)
      × (run_round next o ≡ ended o)
unfolding run_round serve prepare_for_exit handle_error
run_round-error h next os req going busy counted popped error =
    let active : (os.active_core_count == 0) ≡ false = ground arith in
    let low : leb req.request_number 150 ≡ true = ground arith in
    let left =
      prepare_for_exit (handle_error (record os { hdlr = (pop_request_hdlr os.hdlr).2 })) in
    (
      record left { effects = left.effects ++ (signal req.wait_lock ∷ []) },
      rw (going, active, popped, low) refl,
      stop_cores-AllStopped os.core_count os.cores (omega arith),
      refl,
      refl,
    )

-- A panic of a running machine with an active core, whose handler takes requests and whose ring
-- has a capacity below 2 ^ 64 - 2, ends the machine whatever requests were waiting: the next
-- round tells all cores to stop and sets the result to 0, and the round after it finds that the
-- loop has ended.
pub panic-ends :
    (h next : Host) (error : ℕ) (os : Os)
    → os.stop ≡ false
    → 0 < os.active_core_count
    → length os.cores ≡ os.core_count
    → os.hdlr.handle_more ≡ true
    → IsRing os.hdlr.queue
    → os.hdlr.queue.node_count + 2 < word_mod
    → error ≤ 150
    → (o : Os) × (run_round h (panic error os) ≡ served o)
      × AllStopped o.cores
      × (o.ret ≡ 0)
      × (run_round next o ≡ ended o)
unfolding panic
panic-ends h next error os going busy counted open_for ring small low =
    let popped : (pop_request_hdlr (panic error os).hdlr).1 ≡ some (panic_request error) =
      (panic-stops error 0 0 none ring open_for small).3 in
    run_round-error h next (panic error os) (panic_request error) going busy counted popped low

pop-handle_more : (h : RequestHdlr) → (pop_request_hdlr h).2.handle_more ≡ h.handle_more
unfolding pop_request_hdlr
pop-handle_more h = refl

pub if_no {ℓ} : {A : Type ℓ} (b : Bool) (x y : A) → b ≡ false → (if b then x else y) ≡ y
if_no b x y e = ap (λ c. if c then x else y) e

elim_none {ℓ κ} :
    {A : Type ℓ} {B : Type κ} (o : Option A) (x : B) (g : A → B)
    → o ≡ none
    → elim o [ none ↦ x | some a ↦ g a ] ≡ x
elim_none o x g e = ap (λ p. elim p [ none ↦ x | some a ↦ g a ]) e

address-outside :
    (m : DMemory) (address : ℕ)
    → m.number_of_pages ≤ (deduce_address address).page
    → get_byte_address m address ≡ (none, fault m)
unfolding get_byte_address
address-outside m address outside =
    let beyond : leb m.number_of_pages (deduce_address address).page ≡ true = ground arith in
    ap (λ b. if b then (none, fault m) else (some (deduce_address address), m)) beyond

dynl-outside :
    (h : Host) (id : ℕ) (os : Os)
    → os.data_mem.number_of_pages ≤ (deduce_address (reg os id reg_ma)).page
    → execute_dynl h id os ≡ panic mem_invalid_access (record os { data_mem = fault os.data_mem })
unfolding execute_dynl
dynl-outside h id os outside =
    let got = address-outside os.data_mem (reg os id reg_ma) outside in
    elim_none (get_byte_address os.data_mem (reg os id reg_ma)).0 _ _ (ap (λ p. p.0) got)
    ∙ ap (λ p. panic p.1.error (record os { data_mem = p.1 })) got

-- A round that serves a request which does not wait for ever.
pub run_round-served :
    (h : Host) (os o : Os) (req : Request)
    → os.stop ≡ false
    → 0 < os.active_core_count
    → (pop_request_hdlr os.hdlr).1 ≡ some req
    → 150 < req.request_number
    → execute h
        (service req.request_number)
        req.id
        (record os { hdlr = (pop_request_hdlr os.hdlr).2 })
      ≡ some o
    → run_round h os ≡ served (record o { effects = o.effects ++ (signal req.wait_lock ∷ []) })
unfolding run_round serve
run_round-served h os o req going busy popped high done =
    let active : (os.active_core_count == 0) ≡ false = ground arith in
    let request : leb req.request_number 150 ≡ false = ground arith in
    let os1 = record os { hdlr = (pop_request_hdlr os.hdlr).2 } in
    if_no os.stop _ _ going
    ∙ if_no (os.active_core_count == 0) _ _ active
    ∙ ap
        (λ out. elim out [
          | none ↦ slept (record os1 { locked = true })
          | some r ↦ elim (serve h r os1) [ none ↦ blocked | some next ↦ served next ]
        ])
        popped
    ∙ ap (λ r. elim r [ none ↦ blocked | some next ↦ served next ])
        (if_no (leb req.request_number 150) _ _ request
          ∙ ap
              (λ r. elim r [
                | none ↦ none
                | some next ↦
                    some (record next { effects = next.effects ++ (signal req.wait_lock ∷ []) })
              ])
              done)

-- If the next request of a running machine is for a library whose name is at an address outside
-- of the memory, with the handler taking requests, what the pop leaves a ring with a capacity
-- below 2 ^ 64 - 2, and the table of cores as long as it says, the machine ends: the request is
-- answered by a panic, the next round tells all cores to stop and sets the result to 0, and the
-- round after it finds that the loop has ended.
pub dynl_outside-ends :
    (h next last : Host) (os : Os) (req : Request)
    → os.stop ≡ false
    → 0 < os.active_core_count
    → length os.cores ≡ os.core_count
    → os.hdlr.handle_more ≡ true
    → (pop_request_hdlr os.hdlr).1 ≡ some req
    → req.request_number ≡ 154
    → IsRing (pop_request_hdlr os.hdlr).2.queue
    → (pop_request_hdlr os.hdlr).2.queue.node_count + 2 < word_mod
    → os.data_mem.number_of_pages ≤ (deduce_address (reg os req.id reg_ma)).page
    → (o : Os) × (o' : Os) × (run_round h os ≡ served o)
      × (run_round next o ≡ served o')
      × AllStopped o'.cores
      × (o'.ret ≡ 0)
      × (run_round last o' ≡ ended o')
unfolding execute service panic
dynl_outside-ends h next last os req going busy counted more popped number ring small outside =
    let os1 = record os { hdlr = (pop_request_hdlr os.hdlr).2 } in
    let failed = panic mem_invalid_access (record os1 { data_mem = fault os.data_mem }) in
    let o = record failed { effects = failed.effects ++ (signal req.wait_lock ∷ []) } in
    let again =
      run_round-error next last o (panic_request mem_invalid_access) going busy counted
        (panic-stops mem_invalid_access 0 0 none ring (pop-handle_more os.hdlr ∙ more) small).3
        (omega arith) in
    let done : execute h (service req.request_number) req.id os1 ≡ some failed =
      ap (λ n. execute h (service n) req.id os1) number
      ∙ ap some (dynl-outside h req.id os1 outside) in
    (
      o,
      again.0,
      run_round-served h os failed req going busy popped (omega arith) done,
      again.1,
      again.2,
      again.3,
      again.4,
    )
