-- ===== src/Os/Faulting.antt =====
-- From a panic of a core to the end of the machine: merry/merry_core.c, the request handler and the
-- loop of merry/merry_os.c together.
use mathlib.Core.Path.{subst}
use merry_v.Common.{
  ℕ, ◌≤◌, ◌⊎◌, inl, inr, length-set, ◌+◌, ◌<◌, ◌≡◌, refl, sym, ap, ◌∙◌, true, false, arith, ltb,
  length, word_mod, Option, none, some, [], List, Bool,
}
use merry_v.Queue.Fifo.{IsRing}
use merry_v.Memory.{fault}
use merry_v.Memory.Laws.{flat, size, address_limit}
use merry_v.Core.{Core, raise, stop_with, lower_4byte_imm, div_by_zero}
use merry_v.Core.Asks.{Said, said, panicked, Saying, silent, panics, requests}
use merry_v.Core.Run.{ended as core_ended}
use merry_v.Core
use merry_v.Core.Console.{Stdio}
use merry_v.Core.Floats.{Floats}
use merry_v.Core.Opcodes.{decode, op_div_imm}
use merry_v.Core.Switch.{dispatch}
use merry_v.Core.Arith.{div_imm, div_frame}
use merry_v.Core.Run.{running, step}
use merry_v.Core.Cycle.{fetch, step-fetch}
use merry_v.Core.Asks.Dispatch.{core_of, step-Asks}
use merry_v.Os.{Os, Host}
use merry_v.Os.Run.{served, ended, run_round}
use merry_v.Os.Failures.{AllStopped, run_round-error, if_no}
use merry_v.Queue.Panic.{panic_request}
use merry_v.RequestHdlr.{RequestHdlr, Effect, pop_request_hdlr, push_request_hdlr}
use merry_v.RequestHdlr
use merry_v.RequestHdlr.Laws.{panic-stops}
use merry_v.Os.Cores.{Machine, core_in, core_after, put_back, vcore}

-- What ends a machine: it runs, a core is active, its table of cores is as long as it says, and its
-- handler takes requests on a ring with a capacity below 2 ^ 64 - 2.
pub record IsRunning (os : Os) : Type 0 where
  pub going : os.stop ≡ false
  pub busy : 0 < os.active_core_count
  pub counted : length os.cores ≡ os.core_count
  pub open_for : os.hdlr.handle_more ≡ true
  pub ring : IsRing os.hdlr.queue
  pub small : os.hdlr.queue.node_count + 2 < word_mod

-- The end: the next round tells all cores to stop and sets the result to 0, and the round after it
-- finds that the loop has ended.
abbrev pub Ends : Host → Host → Os → Type 0
Ends h next os =
    (o : Os) × (run_round h os ≡ served o)
    × AllStopped o.cores
    × (o.ret ≡ 0)
    × (run_round next o ≡ ended o)

-- A machine that is about to end: it runs, and a panic is the next request of a handler that takes no
-- more of them.
pub record IsDoomed (error : ℕ) (os : Os) : Type 0 where
  pub going : os.stop ≡ false
  pub busy : 0 < os.active_core_count
  pub counted : length os.cores ≡ os.core_count
  pub closed : os.hdlr.handle_more ≡ false
  pub waiting : (pop_request_hdlr os.hdlr).1 ≡ some (panic_request error)

IsDoomed-Ends :
    (h next : Host) (error : ℕ) (os : Os) → error ≤ 150 → IsDoomed error os → Ends h next os
IsDoomed-Ends h next error os low d =
    run_round-error h next os (panic_request error) d.going d.busy d.counted d.waiting low

panic-closes :
    (h : RequestHdlr) (error : ℕ)
    → h.handle_more ≡ true
    → (RequestHdlr.panic h error).1.handle_more ≡ false
unfolding RequestHdlr.panic
panic-closes h error more = rw more refl

-- A core that has only raised a panic in its round.
panicked-IsDoomed :
    (error id : ℕ) (m : Machine) (c : Core)
    → IsRunning m.os
    → said c ≡ panicked error (said (core_in m id))
    → IsDoomed error (put_back id c m.os)
panicked-IsDoomed error id m c r e =
    let same : c.hdlr ≡ (RequestHdlr.panic m.os.hdlr error).1 = ap (λ s. s.hdlr) e in
    record {
      going = r.going;
      busy = r.busy;
      counted = length-set m.os.cores id (vcore c) ∙ r.counted;
      closed = ap (λ k. k.handle_more) same ∙ panic-closes m.os.hdlr error r.open_for;
      waiting =
          ap (λ k. (pop_request_hdlr k).1) same
          ∙ (panic-stops error 0 0 none r.ring r.open_for r.small).3;
    }

-- What a core asks of a handler that takes no more requests does not change it.
Saying-closed :
    (id : ℕ) (cond : Option ℕ) (s s' : Said)
    → s.hdlr.handle_more ≡ false
    → Saying id cond s s'
    → s'.hdlr ≡ s.hdlr
unfolding RequestHdlr.panic push_request_hdlr
Saying-closed id cond s s' closed silent = refl
Saying-closed id cond s s' closed (panics error) =
    ap (λ (out : List Effect × RequestHdlr). out.1) (if_no s.hdlr.handle_more _ ([], s.hdlr) closed)
Saying-closed id cond s s' closed (requests number) =
    ap (λ (out : Bool × List Effect × RequestHdlr). out.2)
      (if_no s.hdlr.handle_more _ (true, [], s.hdlr) closed)

core_after-IsDoomed :
    (io : Stdio) (fl : Floats) (e : Core.Host) (id error : ℕ) (m : Machine)
    → IsDoomed error m.os
    → IsDoomed error (core_after io fl e id m).os
core_after-IsDoomed io fl e id error m d =
    let c = core_in m id in
    let c' = core_of (step io fl e c) in
    let same : c'.hdlr ≡ m.os.hdlr =
      Saying-closed c.core_id c.cond (said c) (said c') d.closed (step-Asks io fl e c) in
    record {
      going = d.going;
      busy = d.busy;
      counted = length-set m.os.cores id (vcore c') ∙ d.counted;
      closed = ap (λ k. k.handle_more) same ∙ d.closed;
      waiting = ap (λ k. (pop_request_hdlr k).1) same ∙ d.waiting;
    }

-- Rounds of cores, without any of the operating system.
pub data CoreRounds : Machine → Machine → Type 0 where
  no_round : {m : Machine} → CoreRounds m m
  then_core :
      {m m' : Machine} (io : Stdio) (fl : Floats) (e : Core.Host) (id : ℕ)
      → CoreRounds (core_after io fl e id m) m'
      → CoreRounds m m'

CoreRounds-IsDoomed :
    {m m' : Machine} (error : ℕ) → CoreRounds m m' → IsDoomed error m.os → IsDoomed error m'.os
CoreRounds-IsDoomed error no_round d = d
CoreRounds-IsDoomed {m} error (then_core io fl e id more) d =
    CoreRounds-IsDoomed error more (core_after-IsDoomed io fl e id error m d)

-- In a running machine with an active core, whose handler takes requests on a ring with a
-- capacity below 2 ^ 64 - 2 and whose table of cores is as long as it says, a core that is
-- running, with its program counter below 2 ^ 49, ends the machine if it comes to a DIV_IMM
-- with the immediate 0 or its program counter has left the instruction memory, whatever
-- requests wait and whatever rounds cores take in between: the next round of the operating
-- system tells all cores to stop and sets the result to 0, and the round after it finds that
-- the loop has ended.
pub core_after-fault-Ends :
    (io : Stdio) (fl : Floats) (e : Core.Host) (id : ℕ) (m m' : Machine) (h next : Host)
    → let c = core_in m id in
      IsRunning m.os
      → c.stop_running ≡ false
      → c.pc < address_limit
      → (size c.inst_mem ≤ c.pc)
        ⊎ ((c.pc < size c.inst_mem)
            × (decode (flat c.inst_mem c.pc) ≡ op_div_imm)
            × (lower_4byte_imm (flat c.inst_mem c.pc) ≡ 0))
      → CoreRounds (core_after io fl e id m) m'
      → Ends h next m'.os
unfolding dispatch div_imm div_frame stop_with raise
core_after-fault-Ends io fl e id m m' h next r on lt (inl outside) others =
    let c = core_in m id in
    let beyond : ltb c.pc (size c.inst_mem) ≡ false = ground arith in
    let c' = raise (fault c.inst_mem).error (record c { inst_mem = fault c.inst_mem }) in
    let stepped : step io fl e c ≡ core_ended c' = step-fetch io fl e c on lt ∙ rw beyond refl in
    let error = (fault c.inst_mem).error in
    IsDoomed-Ends h next error m'.os (omega arith) (
      CoreRounds-IsDoomed error others (
        subst (λ p. IsDoomed error (put_back id (core_of p) m.os)) (sym stepped)
          (panicked-IsDoomed error id m c' r refl)))
core_after-fault-Ends io fl e id m m' h next r on lt (inr (inside, op, by_zero)) others =
    let c = core_in m id in
    let here : ltb c.pc (size c.inst_mem) ≡ true = ground arith in
    let c' = stop_with div_by_zero (fetch c) in
    let stepped : step io fl e c ≡ running (div_imm e (fetch c)) =
      step-fetch io fl e c on lt
      ∙ rw here (ap (λ opcode. running (dispatch io fl e opcode (fetch c))) op) in
    let divided : div_imm e (fetch c) ≡ c' = rw by_zero refl in
    IsDoomed-Ends h next div_by_zero m'.os (omega arith) (
      CoreRounds-IsDoomed div_by_zero others (
        subst (λ d. IsDoomed div_by_zero (put_back id d m.os)) (sym (ap core_of stepped ∙ divided))
          (panicked-IsDoomed div_by_zero id m c' r refl)))
