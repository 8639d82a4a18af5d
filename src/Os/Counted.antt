-- ===== src/Os/Counted.antt =====
-- The table of cores and the number of active cores, under the requests of merry/merry_os.c.
use mathlib.Core.Path.{subst}
use merry_v.Common.{
  ℕ, zero, suc, ◌+◌, ◌-◌, ◌≤◌, ◌<◌, ◌≡◌, ◌⊎◌, refl, sym, ap, ◌∙◌, Bool, true, false, Option, none,
  some, List, [], ◌∷◌, ◌++◌, arith, ◌==◌, if◌then◌else◌, length, set, length-set, length-append,
  Bool-cases, inl, inr, word_mod,
}
use merry_v.Core.{reg_ma}
use merry_v.Os.{
  Os, VCore, Host, reg, core_at, set_reg, boot_core, add_core, add_locked, prepare_for_exit,
  stop_cores, ret_failure, ret_success, new_vcore,
}
use merry_v.Os.Requests.{execute_halt, execute_new_core, boot_new_core}
use merry_v.Os.Run.{Service, halt, exit, new_core, execute}
use merry_v.Os.Frames.{Frame, frame, execute-frame, set_reg-frame}

-- The table of cores is as long as it says, and no more cores are active than there are.
pub record Counted (f : Frame) : Type 0 where
  pub counted : f.table ≡ f.count
  pub active_le : f.active ≤ f.count
  pub small : f.active < word_mod

pub length-stop_cores : (n : ℕ) (cores : List VCore) → length (stop_cores n cores) ≡ length cores
unfolding stop_cores
length-stop_cores zero cores = refl
length-stop_cores (suc n) [] = refl
length-stop_cores (suc n) (c ∷ cores) = ap suc (length-stop_cores n cores)

pub prepare_for_exit-Counted :
    (os : Os) → Counted (frame os) → Counted (frame (prepare_for_exit os))
unfolding prepare_for_exit
prepare_for_exit-Counted os v = record {
  counted = length-stop_cores os.core_count os.cores ∙ v.counted;
  active_le = v.active_le;
  small = v.small;
}

halt-Counted :
    (h : Host) (id : ℕ) (os : Os)
    → 0 < os.active_core_count
    → Counted (frame os)
    → (os' : Os) × (execute h halt id os ≡ some os') × Counted (frame os')
unfolding execute execute_halt
halt-Counted h id os pos v =
    let c = core_at os id in
    let os1 = record os { cores = set os.cores id (record c { stop_running = true }) } in
    let same = length-set os.cores id (record c { stop_running = true }) in
    elim (Bool-cases (os.core_count == 1)) [
      | inl one ↦ (
        _,
        refl,
        rw one
            (record { counted = same ∙ v.counted; active_le = ground arith; small = ground arith }),
      )
      | inr more ↦ (
        _,
        refl,
        rw more
            (record { counted = same ∙ v.counted; active_le = ground arith; small = ground arith }),
      )
    ]

boot_core-Counted :
    (h : Host) (id addr : ℕ) (os : Os)
    → os.active_core_count < os.core_count
    → Counted (frame os)
    → Counted (frame (boot_core h id addr os).1)
unfolding boot_core
boot_core-Counted h id addr os lt v =
    let same = length-set os.cores id (record (core_at os id) { pc = addr }) in
    let idle : Counted (record (frame os) {
      table = length (set os.cores id (record (core_at os id) { pc = addr }));
    }) =
      record { counted = same ∙ v.counted; active_le = v.active_le; small = v.small } in
    elim (Bool-cases (h.thread_ok id)) [
      | inr failed ↦ rw failed idle
      | inl thread ↦ elim (Bool-cases (h.create_ok id)) [
        | inr failed ↦ rw (thread, failed) idle
        | inl created ↦
            rw (thread, created)
              (record { counted = same ∙ v.counted; active_le = omega arith; small = omega arith })
      ]
    ]

-- A core is added, or the lock is kept and nothing else changes.
pub add_locked-cases :
    (h : Host) (os : Os)
    → (add_locked h os ≡ (
      ret_success,
      record os {
        cores = os.cores ++ (new_vcore ∷ []);
        core_count = os.core_count + 1;
        locked = false;
      },
    ))
      ⊎ (add_locked h os ≡ (ret_failure, record os { locked = true }))
unfolding add_locked
add_locked-cases h os = elim (Bool-cases h.threads_ok) [
  | inr failed ↦ inr (rw failed refl)
  | inl threads ↦ elim (Bool-cases h.cores_ok) [
    | inr failed ↦ inr (rw (threads, failed) refl)
    | inl cores ↦ elim (Bool-cases h.core_ok) [
      | inr failed ↦ inr (rw (threads, cores, failed) refl)
      | inl core ↦ inl (rw (threads, cores, core) refl)
    ]
  ]
]

set_reg-Counted : (id r v : ℕ) (os : Os) → Counted (frame os) → Counted (frame (set_reg id r v os))
set_reg-Counted id r v os ok = subst Counted (sym (set_reg-frame id r v os)) ok

boot_new_core-Counted :
    (h : Host) (id : ℕ) (os : Os)
    → Counted (frame os)
    → Counted (frame (boot_new_core h id (add_locked h os)))
unfolding boot_new_core
boot_new_core-Counted h id os v = elim (add_locked-cases h os) [
  | inr failed ↦
      subst (λ added. Counted (frame (boot_new_core h id added))) (sym failed)
        (set_reg-Counted id reg_ma 1 (record os { locked = true })
          (record { counted = v.counted; active_le = v.active_le; small = v.small }))
  | inl added ↦
      let os1 = record os {
        cores = os.cores ++ (new_vcore ∷ []);
        core_count = os.core_count + 1;
        locked = false;
      } in
      let out = boot_core h (os1.core_count - 1) (reg os1 id reg_ma) os1 in
      subst (λ a. Counted (frame (boot_new_core h id a))) (sym added)
        (set_reg-Counted id reg_ma out.0 out.1 (
          boot_core-Counted h (os1.core_count - 1) (reg os1 id reg_ma) os1
            (omega (arith, v.active_le))
            (record {
              counted = omega (arith, length-append os.cores (new_vcore ∷ []), v.counted);
              active_le = omega (arith, v.active_le);
              small = v.small;
            })))
]

abbrev pub AllCounted : Option Os → Type 0
AllCounted none = Unit
AllCounted (some os) = Counted (frame os)

unless-some {ℓ κ} :
    {A : Type ℓ} {B : Type κ} (b : Bool) (a : A) (f : A → B)
    → elim (if b then none else some a) [ none ↦ none | some x ↦ some (f x) ]
      ≡ (if b then none else some (f a))
unless-some true a f = refl
unless-some false a f = refl

-- A request for a new core waits for ever exactly if the lock is held.
pub new_core-lock :
    (h : Host) (id : ℕ) (os : Os)
    → execute h new_core id os
      ≡ (if os.locked then none else some (boot_new_core h id (add_locked h os)))
unfolding execute execute_new_core add_core
new_core-lock h id os = unless-some os.locked (add_locked h os) (boot_new_core h id)

new_core-Counted :
    (h : Host) (id : ℕ) (os : Os) → Counted (frame os) → AllCounted (execute h new_core id os)
new_core-Counted h id os v =
    subst AllCounted (sym (new_core-lock h id os)) (elim (Bool-cases os.locked) [
      | inl held ↦
          subst (λ b. AllCounted (if b then none else some (boot_new_core h id (add_locked h os))))
            (sym held) tt
      | inr free ↦
          subst (λ b. AllCounted (if b then none else some (boot_new_core h id (add_locked h os))))
            (sym free) (boot_new_core-Counted h id os v)
    ])

pub execute-Counted :
    (h : Host) (s : Service) (id : ℕ) (os : Os)
    → 0 < os.active_core_count
    → Counted (frame os)
    → AllCounted (execute h s id os)
unfolding execute
execute-Counted h halt id os pos v =
    let out = halt-Counted h id os pos v in subst AllCounted (sym out.1) out.2
execute-Counted h exit id os pos v = prepare_for_exit-Counted os v
execute-Counted h new_core id os pos v = new_core-Counted h id os v
execute-Counted h s id os pos v =
    let out = execute-frame h s id os refl in
    subst AllCounted (sym out.1) (subst Counted (sym out.2) v)
