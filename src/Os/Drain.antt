-- ===== src/Os/Drain.antt =====
-- The end of the loop of merry/merry_os.c by the halts of its cores.
use mathlib.Core.Path.{subst}
use merry_v.Common.{
  ℕ, suc, ◌+◌, ◌<◌, ◌≡◌, ◌⊎◌, refl, sym, ap, ◌∙◌, Bool, true, some, List, [], ◌∷◌, ◌++◌, arith,
  ◌==◌, if◌then◌else◌, length, Bool-cases, inl, inr, word_mod,
}
use merry_v.Queue.{Request, pop_request}
use merry_v.Queue.Fifo.{IsRing, contents, pop_request-contents, pop_request-IsRing, Popped}
use merry_v.RequestHdlr.{pop_request_hdlr, signal}
use merry_v.Os.{Os, Host}
use merry_v.Os.Requests.{execute_halt}
use merry_v.Os.Run.{
  halt, execute, service, Round, ended, served, slept, blocked, run_round, start_loop,
}
use merry_v.Os.Failures.{run_round-served, if_no}

-- Every request of the list is a halt.
abbrev pub AllHalts : List Request → Type 0
AllHalts [] = Unit
AllHalts (r ∷ rs) = (r.request_number ≡ 151) × AllHalts rs

-- One active core less, and the stop flag if there was one core only.
halt-parts :
    (h : Host) (id : ℕ) (os : Os)
    → 0 < os.active_core_count
    → os.active_core_count < word_mod
    → (o : Os) × (execute h halt id os ≡ some o)
      × (o.active_core_count + 1 ≡ os.active_core_count)
      × (o.hdlr ≡ os.hdlr)
unfolding execute execute_halt
halt-parts h id os pos small = elim (Bool-cases (os.core_count == 1)) [
  | inl one ↦ (_, refl, rw one (omega arith), rw one refl)
  | inr more ↦ (_, refl, rw more (omega arith), rw more refl)
]

if_yes {ℓ} : {A : Type ℓ} (b : Bool) (x y : A) → b ≡ true → (if b then x else y) ≡ x
if_yes b x y e = ap (λ c. if c then x else y) e

ended_round :
    (h : Host) (os : Os) → (os.stop ≡ true) ⊎ (os.active_core_count ≡ 0) → run_round h os ≡ ended os
unfolding run_round
ended_round h os (inl stopped) = if_yes os.stop _ _ stopped
ended_round h os (inr idle) =
    let none_left : (os.active_core_count == 0) ≡ true = ground arith in
    elim (Bool-cases os.stop) [
      | inl stopped ↦ if_yes os.stop _ _ stopped
      | inr going ↦ if_no os.stop _ _ going ∙ if_yes (os.active_core_count == 0) _ _ none_left
    ]

abbrev go_on : (ℕ → Host) → ℕ → ℕ → Round → Round
go_on hosts fuel i round = elim round [
  | ended o ↦ ended o
  | served o ↦ start_loop hosts (λ k s. s) fuel (i + 1) o
  | slept o ↦ start_loop hosts (λ k s. s) fuel (i + 1) o
  | blocked ↦ blocked
]

-- If exactly as many requests wait on a ring as cores are active, all of them halts, and
-- nothing else happens, the loop ends, at the latest in the round after the last halt.
pub halts-end :
    (hosts : ℕ → Host) (rs : List Request) (i : ℕ) (os : Os)
    → AllHalts rs
    → IsRing os.hdlr.queue
    → contents os.hdlr.queue ≡ rs
    → length rs ≡ os.active_core_count
    → os.active_core_count < word_mod
    → (o : Os) × (start_loop hosts (λ k s. s) (suc (length rs)) i os ≡ ended o)
unfolding start_loop pop_request_hdlr
halts-end hosts [] i os ok ring waiting count small =
    (os, ap (go_on hosts 0 i) (ended_round (hosts i) os (inr (sym count))))
halts-end hosts (r ∷ rs) i os ok ring waiting count small = elim (Bool-cases os.stop) [
  | inl stopped ↦
      (os, ap (go_on hosts (suc (length rs)) i) (ended_round (hosts i) os (inl stopped)))
  | inr going ↦
      let popped =
        subst (λ l. Popped l os.hdlr.queue (pop_request os.hdlr.queue)) waiting
          (pop_request-contents ring) in
      let os1 = record os { hdlr = (pop_request_hdlr os.hdlr).2 } in
      let left = halt-parts (hosts i) r.id os1 (omega arith) small in
      let done : execute (hosts i) (service r.request_number) r.id os1 ≡ some left.0 =
        ap (λ n. execute (hosts i) (service n) r.id os1) ok.0 ∙ left.1 in
      let round =
        run_round-served (hosts i) os left.0 r going (omega arith) popped.1 (omega (arith, ok.0))
          done in
      let woken = record left.0 { effects = left.0.effects ++ (signal r.wait_lock ∷ []) } in
      let rest =
        halts-end hosts rs (i + 1) woken ok.1
          (subst (λ k. IsRing k.queue) (sym left.3) (pop_request-IsRing ring))
          (ap (λ k. contents k.queue) left.3 ∙ popped.2) (omega (arith, left.2))
          (omega (arith, left.2)) in
      (rest.0, ap (go_on hosts (suc (length rs)) i) round ∙ rest.1)
]
