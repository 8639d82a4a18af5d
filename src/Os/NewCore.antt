-- ===== src/Os/NewCore.antt =====
-- New cores and new pages of memory, as merry/merry_os.c makes them.
use mathlib.Core.Path.{subst}
use merry_v.Common.{
  ℕ, ◌+◌, ◌-◌, ◌*◌, ◌/◌, ◌%◌, ◌<◌, ◌≡◌, refl, sym, ap, ap₂, ◌∙◌, true, false, Option, none, some,
  [], ◌∷◌, ◌++◌, arith, ◌==◌, ◌&&◌, leb, if◌then◌else◌, length, length-append, length-set,
  get_or-set_self, update, update_self, Bool-cases, inl, inr, wrap,
}
use merry_v.DMemory.{page_size, deduce_address, add_new_page, allocate_new_mempage}
use merry_v.Core.{reg_ma}
use merry_v.Queue.{Request}
use merry_v.RequestHdlr.{pop_request_hdlr}
use merry_v.Os.{
  Os, VCore, Host, reg, core_at, set_reg, panic, reg_mb, boot_core, add_locked, prepare_for_exit,
  handle_error, ret_failure, ret_success, new_vcore,
}
use merry_v.Os.Requests.{boot_new_core, execute_mem, execute_halt}
use merry_v.Os.Run.{
  Service, halt, exit, new_core, execute, service, serve, Round, ended, served, slept, blocked,
  run_round,
}
use merry_v.Os.Frames.{execute-frame}
use merry_v.Os.Counted.{new_core-lock, add_locked-cases}
use merry_v.Os.Machine.{
  Step, Steps, here, then_step, os_serves, os_sleeps, core_works, core_requests, core_panics, wake,
}

-- A register that was written.
reg-set_reg_self : (id r v : ℕ) (os : Os) → id < length os.cores → reg (set_reg id r v os) id r ≡ v
reg-set_reg_self id r v os lt =
    let c = core_at os id in
    let c' : VCore = record c { registers = update c.registers r v } in
    ap (λ x. x.registers r) (get_or-set_self os.cores id c' new_vcore lt)
    ∙ update_self c.registers r v

-- With fewer than 2 ^ 32 pages, a request for memory by an existing core whose allocations
-- succeed adds a page, and the address in Mb is in that page, one byte behind its first byte.
pub execute_mem-place :
    (h : Host) (id : ℕ) (os : Os)
    → h.realloc_ok ≡ true
    → h.malloc_ok ≡ true
    → id < length os.cores
    → os.data_mem.number_of_pages < 4294967296
    → let os' = execute_mem h id os in
      (deduce_address (reg os' id reg_mb)
        ≡ record { page = os.data_mem.number_of_pages; offset = 1 })
      × (os'.data_mem.number_of_pages ≡ os.data_mem.number_of_pages + 1)
unfolding execute_mem add_new_page allocate_new_mempage
execute_mem-place h id os realloc malloc lt small =
    let pages = os.data_mem.number_of_pages in
    let m = record os.data_mem {
      pages = os.data_mem.pages ++ (h.fresh ∷ []);
      number_of_pages = pages + 1;
    } in
    let a = wrap ((pages + 1 - 1) * page_size + 1) in
    let got : reg (set_reg id reg_mb a (record os { data_mem = m })) id reg_mb ≡ a =
      reg-set_reg_self id reg_mb a (record os { data_mem = m }) lt in
    let page : a / page_size % 4294967296 ≡ pages = omega arith in
    let offset : a % page_size % 4294967296 ≡ 1 = omega arith in
    let place : deduce_address a ≡ record { page = pages; offset = 1 } =
      ap₂ (λ p o. record { page = p; offset = o }) page offset in
    rw (realloc, malloc) (ap deduce_address got ∙ place, refl)

abbrev AllHeld : Option Os → Type 0
AllHeld none = Unit
AllHeld (some os) = os.locked ≡ true

abbrev RoundHeld : Round → Type 0
RoundHeld (ended os) = os.locked ≡ true
RoundHeld (served os) = os.locked ≡ true
RoundHeld (slept os) = os.locked ≡ true
RoundHeld blocked = Unit

held-new_core : (h : Host) (id : ℕ) (os : Os) → os.locked ≡ true → execute h new_core id os ≡ none
held-new_core h id os held =
    new_core-lock h id os
    ∙ ap (λ b. if b then none else some (boot_new_core h id (add_locked h os))) held

execute-AllHeld :
    (h : Host) (s : Service) (id : ℕ) (os : Os) → os.locked ≡ true → AllHeld (execute h s id os)
unfolding execute execute_halt prepare_for_exit
execute-AllHeld h halt id os held = elim (Bool-cases (os.core_count == 1)) [
  | inl one ↦ rw (one, execute_halt) held
  | inr more ↦ rw (more, execute_halt) held
]
execute-AllHeld h exit id os held = held
execute-AllHeld h new_core id os held = subst AllHeld (sym (held-new_core h id os held)) tt
execute-AllHeld h s id os held =
    let out = execute-frame h s id os refl in
    subst AllHeld (sym out.1) (ap (λ f. f.held) out.2 ∙ held)

wake-AllHeld :
    (req : Request) (o : Option Os)
    → AllHeld o
    → AllHeld (elim o [ none ↦ none | some os ↦ some (wake req os) ])
wake-AllHeld req none held = tt
wake-AllHeld req (some os) held = held

served-RoundHeld :
    (o : Option Os) → AllHeld o → RoundHeld (elim o [ none ↦ blocked | some os ↦ served os ])
served-RoundHeld none held = tt
served-RoundHeld (some os) held = held

serve-AllHeld : (h : Host) (req : Request) (os : Os) → os.locked ≡ true → AllHeld (serve h req os)
unfolding serve handle_error prepare_for_exit
serve-AllHeld h req os held = elim (Bool-cases (leb req.request_number 150)) [
  | inl error ↦ rw error held
  | inr request ↦ rw request (
      wake-AllHeld req (execute h (service req.request_number) req.id os)
        (execute-AllHeld h (service req.request_number) req.id os held))
]

popped-RoundHeld :
    (h : Host) (os : Os) (out : Option Request)
    → os.locked ≡ true
    → RoundHeld (elim out [
      | none ↦ slept (record os { locked = true })
      | some req ↦ elim (serve h req os) [ none ↦ blocked | some next ↦ served next ]
    ])
popped-RoundHeld h os none held = refl
popped-RoundHeld h os (some req) held =
    served-RoundHeld (serve h req os) (serve-AllHeld h req os held)

run_round-RoundHeld : (h : Host) (os : Os) → os.locked ≡ true → RoundHeld (run_round h os)
unfolding run_round
run_round-RoundHeld h os held = elim (Bool-cases os.stop) [
  | inl stopped ↦ rw stopped held
  | inr going ↦ elim (Bool-cases (os.active_core_count == 0)) [
    | inl idle ↦ rw (going, idle) held
    | inr busy ↦
        rw (going, busy)
          (popped-RoundHeld h (record os { hdlr = (pop_request_hdlr os.hdlr).2 })
            (pop_request_hdlr os.hdlr).1 held)
  ]
]

Step-held : {os os' : Os} → Step os os' → os.locked ≡ true → os'.locked ≡ true
unfolding panic
Step-held {os} (os_serves h e) held = subst RoundHeld e (run_round-RoundHeld h os held)
Step-held {os} (os_sleeps h e) held = subst RoundHeld e (run_round-RoundHeld h os held)
Step-held (core_works id c m m') held = held
Step-held (core_requests number id cond) held = held
Step-held (core_panics error) held = held

-- Once the lock of the operating system is held, it stays held whatever the machine does, and every
-- request for a new core waits for ever.
pub held_lock-blocks :
    (h : Host) (id : ℕ) {os os' : Os}
    → Steps os os'
    → os.locked ≡ true
    → (os'.locked ≡ true) × (execute h new_core id os' ≡ none)
held_lock-blocks h id {os} here held = (held, held-new_core h id os held)
held_lock-blocks h id (then_step s more) held = held_lock-blocks h id more (Step-held s held)

abbrev SleptHeld : Round → Type 0
SleptHeld (slept os) = os.locked ≡ true
SleptHeld _ = Unit

served-SleptHeld : (o : Option Os) → SleptHeld (elim o [ none ↦ blocked | some os ↦ served os ])
served-SleptHeld none = tt
served-SleptHeld (some os) = tt

popped-SleptHeld :
    (h : Host) (os : Os) (out : Option Request)
    → SleptHeld (elim out [
      | none ↦ slept (record os { locked = true })
      | some req ↦ elim (serve h req os) [ none ↦ blocked | some next ↦ served next ]
    ])
popped-SleptHeld h os none = refl
popped-SleptHeld h os (some req) = served-SleptHeld (serve h req os)

run_round-SleptHeld : (h : Host) (os : Os) → SleptHeld (run_round h os)
unfolding run_round
run_round-SleptHeld h os = elim (Bool-cases os.stop) [
  | inl stopped ↦ rw stopped tt
  | inr going ↦ elim (Bool-cases (os.active_core_count == 0)) [
    | inl idle ↦ rw (going, idle) tt
    | inr busy ↦
        rw (going, busy)
          (popped-SleptHeld h (record os { hdlr = (pop_request_hdlr os.hdlr).2 })
            (pop_request_hdlr os.hdlr).1)
  ]
]

-- After a round in which the operating system slept, whatever the machine does, every request
-- for a new core waits for ever: the wake-up has left the lock locked, and nothing unlocks it.
pub slept-blocks :
    (h next : Host) (id : ℕ) (os : Os) {o os' : Os}
    → run_round h os ≡ slept o
    → Steps o os'
    → execute next new_core id os' ≡ none
slept-blocks h next id os e s =
    (held_lock-blocks next id s (subst SleptHeld e (run_round-SleptHeld h os))).1

boot_core-parts :
    (h : Host) (id addr : ℕ) (os : Os)
    → ((boot_core h id addr os).0
        ≡ (if h.thread_ok id && h.create_ok id then ret_success else ret_failure))
      × (length (boot_core h id addr os).1.cores ≡ length os.cores)
unfolding boot_core
boot_core-parts h id addr os =
    let same = length-set os.cores id (record (core_at os id) { pc = addr }) in
    elim (Bool-cases (h.thread_ok id)) [
      | inr failed ↦ rw failed (refl, same)
      | inl thread ↦ elim (Bool-cases (h.create_ok id)) [
        | inr failed ↦ rw (thread, failed) (refl, same)
        | inl created ↦ rw (thread, created) (refl, same)
      ]
    ]

-- Register Ma of an existing core after its request for a new core, if that does not have to
-- wait: 1 if the core could not be made, and 1 as well if it was made and started; 0 if it was
-- made and could not be started.
pub new_core-status :
    (h : Host) (id : ℕ) (os : Os)
    → id < length os.cores
    → reg (boot_new_core h id (add_locked h os)) id reg_ma ≡ (
        if (add_locked h os).0 == ret_success
        then (if h.thread_ok os.core_count && h.create_ok os.core_count then 1 else 0)
        else 1)
unfolding boot_new_core
new_core-status h id os lt = elim (add_locked-cases h os) [
  | inr failed ↦
      subst
        (λ a. reg (boot_new_core h id a) id reg_ma ≡ (
          if a.0 == ret_success
          then (if h.thread_ok os.core_count && h.create_ok os.core_count then 1 else 0)
          else 1))
        (sym failed) (reg-set_reg_self id reg_ma 1 (record os { locked = true }) lt)
  | inl added ↦
      let os1 = record os {
        cores = os.cores ++ (new_vcore ∷ []);
        core_count = os.core_count + 1;
        locked = false;
      } in
      let out = boot_core h (os1.core_count - 1) (reg os1 id reg_ma) os1 in
      let parts = boot_core-parts h (os1.core_count - 1) (reg os1 id reg_ma) os1 in
      subst
        (λ a. reg (boot_new_core h id a) id reg_ma ≡ (
          if a.0 == ret_success
          then (if h.thread_ok os.core_count && h.create_ok os.core_count then 1 else 0)
          else 1))
        (sym added)
        (reg-set_reg_self id reg_ma out.0 out.1
            (omega (arith, length-append os.cores (new_vcore ∷ []), parts.1))
          ∙ parts.0
          ∙ ap (λ k. if h.thread_ok k && h.create_ok k then 1 else 0) {x = os.core_count + 1 - 1}
              (omega arith))
]
