-- ===== src/Os/Started.antt =====
-- What `merry_os_init` and the first loop of `merry_os_start_vm`, merry/merry_os.c, make of a machine.
use mathlib.Core.Path.{subst}
use merry_v.Common.{
  ℕ, zero, suc, ◌+◌, ◌≡◌, ◌≤◌, ◌<◌, refl, sym, ap, ◌∙◌, Bool, true, false, Option, none, some, List,
  [], ◌∷◌, length, wrap, arith, Bool-cases, inl, inr, get_or, set, word_mod,
}
use merry_v.Queue.{Queue, Request}
use merry_v.Queue
use merry_v.RequestHdlr.{RequestHdlr}
use merry_v.RequestHdlr
use merry_v.Reader.{Reader}
use merry_v.Os.{Os, Host, VCore, new_vcore, core_at, set_reg, reg_md, boot_core, ret_success}
use merry_v.Os.Run.{boot_cores}
use merry_v.Os.Frames.{frame, set_reg-frame}
use merry_v.Os.Counted.{Counted}
use merry_v.Queue.Fifo.{IsRing, contents}
use merry_v.Queue.Build.{init-IsRing}
use merry_v.Os.Init.{
  Start, request_queue_len, reg_mm1, reg_mm5, options_len, make_cores, init_data, init_inst,
  init_cores, init_hdlr, init_loader, init, new_os, tell_options,
}

-- The number of cores made, if all of them are.
abbrev Sized : ℕ → Option (List VCore) → Type 0
Sized n none = Unit
Sized n (some cores) = length cores ≡ n

cons-Sized :
    (n : ℕ) (o : Option (List VCore))
    → Sized n o
    → Sized (suc n) (elim o [ none ↦ none | some cores ↦ some (new_vcore ∷ cores) ])
cons-Sized n none e = tt
cons-Sized n (some cores) e = omega (arith, e)

make_cores-Sized : (core_ok : ℕ → Bool) (n i : ℕ) → Sized n (make_cores core_ok n i)
unfolding make_cores
make_cores-Sized core_ok zero i = refl
make_cores-Sized core_ok (suc n) i = elim (Bool-cases (core_ok i)) [
  | inl made ↦
      rw made (cons-Sized n (make_cores core_ok n (i + 1)) (make_cores-Sized core_ok n (i + 1)))
  | inr failed ↦ rw failed tt
]

-- A handler that takes requests, with an empty ring for ten of them.
abbrev pub Ready : Option RequestHdlr → Type 0
Ready none = Unit
Ready (some h) =
    IsRing h.queue
    × (h.queue.node_count ≡ request_queue_len)
    × (contents h.queue ≡ [])
    × (h.handle_more ≡ true)

queue-Ready :
    (q : Option Queue) (lock_ok : Bool) (ring : Queue)
    → q ≡ some ring
    → IsRing ring
    → ring.node_count ≡ request_queue_len
    → contents ring ≡ []
    → Ready (RequestHdlr.init q lock_ok)
unfolding RequestHdlr.init
queue-Ready q lock_ok ring e is_ring size empty =
    subst (λ o. Ready (RequestHdlr.init o lock_ok)) (sym e)
      (elim (Bool-cases lock_ok) [
        | inl ok ↦ rw ok (is_ring, size, empty, refl)
        | inr failed ↦ rw failed tt
      ])

no_queue-Ready :
    (s : Start)
    → s.queue_ok ≡ false
    → (lock_ok : Bool)
    → Ready (
        RequestHdlr.init
          (Queue.init s.queue_ok s.node_ok s.node_next s.node_value request_queue_len)
          lock_ok)
unfolding RequestHdlr.init Queue.init
no_queue-Ready s failed lock_ok = rw failed tt

init_hdlr-Ready :
    (s : Start) → ((i : ℕ) → i ≤ request_queue_len → s.node_ok i ≡ true) → Ready (init_hdlr s)
unfolding init_hdlr
init_hdlr-Ready s nodes =
    let queue = Queue.init s.queue_ok s.node_ok s.node_next s.node_value request_queue_len in
    elim (Bool-cases s.cond_ok) [
      | inr failed ↦ rw failed tt
      | inl cond ↦ elim (Bool-cases s.lock_ok) [
        | inr failed ↦ rw (cond, failed) tt
        | inl lock ↦ elim (Bool-cases s.queue_ok) [
          | inr failed ↦ rw (cond, lock) (no_queue-Ready s failed s.hdlr_lock_ok)
          | inl ok ↦
              let made =
                init-IsRing s.node_ok s.node_next s.node_value request_queue_len (omega arith)
                  nodes in
              let got : queue ≡ some made.0 =
                ap (λ b. Queue.init b s.node_ok s.node_next s.node_value request_queue_len) ok
                ∙ made.1 in
              rw (cond, lock) (queue-Ready queue s.hdlr_lock_ok made.0 got made.2 made.3 made.4)
        ]
      ]
    ]

-- What holds of a machine that starts.
abbrev pub Started : ℕ → Option Os → Type 0
Started n none = Unit
Started n (some os) =
    Counted (frame os)
    × (os.core_count ≡ n)
    × (os.active_core_count ≡ 0)
    × (os.stop ≡ false)
    × (os.locked ≡ false)
    × Ready (some os.hdlr)

option-Started {ℓ} :
    {A : Type ℓ} (n : ℕ) (o : Option A) (next : A → Option Os)
    → ((a : A) → o ≡ some a → Started n (next a))
    → Started n (elim o [ none ↦ none | some a ↦ next a ])
option-Started n none next k = tt
option-Started n (some a) next k = k a refl

tell_options-frame :
    (r : Reader) (count len : ℕ) (os : Os) → frame (tell_options r count len os) ≡ frame os
tell_options-frame r count len os =
    let os1 = set_reg 0 reg_mm1 count os in
    let os2 = set_reg 0 reg_md (wrap (r.data_len + 1)) os1 in
    set_reg-frame 0 reg_mm5 (wrap (len + r.data_len + 1)) os2
    ∙ set_reg-frame 0 reg_md (wrap (r.data_len + 1)) os1
    ∙ set_reg-frame 0 reg_mm1 count os

init_cores-Sized : (s : Start) (r : Reader) → Sized r.eat_entry_count (init_cores s r)
unfolding init_cores
init_cores-Sized s r = elim (Bool-cases s.cores_ok) [
  | inl made ↦ rw made (make_cores-Sized s.core_ok r.eat_entry_count 0)
  | inr failed ↦ rw failed tt
]

-- If the nodes of the request queue can be allocated, a machine that starts has a table of as
-- many cores as there are entry addresses, none of them active, is not stopped, its lock is
-- free, and its handler takes requests, with an empty ring for ten of them.
pub init-Started :
    (s : Start) (r : Reader) (lens : List ℕ) (options : ℕ → ℕ)
    → ((i : ℕ) → i ≤ request_queue_len → s.node_ok i ≡ true)
    → Started r.eat_entry_count (init s r lens options)
unfolding init
init-Started s r lens options nodes =
    let n = r.eat_entry_count in
    option-Started n (init_data s r lens options) _ (λ data_mem e1.
      option-Started n (init_inst s r) _ (λ inst_mem e2.
        option-Started n (init_cores s r) _ (λ cores e3.
          option-Started n (init_hdlr s) _ (λ hdlr e4.
            option-Started n (init_loader s) _ (λ loader e5.
              let os = new_os r data_mem inst_mem cores hdlr loader in
              let sized = subst (Sized n) e3 (init_cores-Sized s r) in
              (
                subst Counted (sym (tell_options-frame r (length lens) (options_len lens 0) os))
                    (record { counted = sized; active_le = omega arith; small = omega arith }),
                refl,
                refl,
                refl,
                refl,
                subst Ready e4 (init_hdlr-Ready s nodes),
              ))))))

-- A core that can be started is active from then on, with its address; the others stay as they are.
boot_core-ok :
    (h : Host) (id addr : ℕ) (os : Os)
    → h.thread_ok id ≡ true
    → h.create_ok id ≡ true
    → boot_core h id addr os ≡ (
      ret_success,
      record os {
        cores = set os.cores id (record (core_at os id) { pc = addr });
        active_core_count = wrap (os.active_core_count + 1);
      },
    )
unfolding boot_core
boot_core-ok h id addr os thread created = rw (thread, created) refl

-- If every thread can be started and the count fits 64 bits, the loop over the cores starts all
-- of them: each counts as active, and neither the request handler nor the stop flag changes.
pub boot_cores-active :
    (h : Host) (n i : ℕ) (os : Os)
    → ((k : ℕ) → h.thread_ok k ≡ true)
    → ((k : ℕ) → h.create_ok k ≡ true)
    → os.active_core_count + n < word_mod
    → ((boot_cores h n i os).0 ≡ true)
      × ((boot_cores h n i os).1.active_core_count ≡ os.active_core_count + n)
      × ((boot_cores h n i os).1.hdlr ≡ os.hdlr)
      × ((boot_cores h n i os).1.stop ≡ os.stop)
unfolding boot_cores
boot_cores-active h zero i os threads created small = (refl, omega arith, refl, refl)
boot_cores-active h (suc n) i os threads created small =
    let booted = boot_core-ok h i (get_or os.eat i 0) os (threads i) (created i) in
    let os' = record os {
      cores = set os.cores i (record (core_at os i) { pc = get_or os.eat i 0 });
      active_core_count = wrap (os.active_core_count + 1);
    } in
    let rest = boot_cores-active h n (i + 1) os' threads created (omega arith) in
    rw booted (rest.0, omega (arith, rest.1), rest.2, rest.3)
