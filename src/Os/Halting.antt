-- ===== src/Os/Halting.antt =====
-- From a HALT in the instruction memory to the end of the machine: merry/merry_core.c, the request
-- handler and the loop of merry/merry_os.c together.
use merry_v.Common.{
  ℕ, suc, ◌+◌, ◌<◌, ◌≡◌, refl, ap, ◌∙◌, true, false, List, [], ◌∷◌, ◌++◌, arith, ltb, length,
  length-append, word_mod,
}
use merry_v.Queue.{Request}
use merry_v.Queue.Fifo.{IsRing, contents}
use merry_v.RequestHdlr.Laws.{push_request_hdlr-room}
use merry_v.Memory.Laws.{flat, size, address_limit}
use merry_v.Core.{Core}
use merry_v.Core
use merry_v.Core.Console.{Stdio}
use merry_v.Core.Floats.{Floats}
use merry_v.Core.Opcodes.{decode, op_halt}
use merry_v.Core.Switch.{dispatch}
use merry_v.Core.Control.{halt, request, req_reqhalt}
use merry_v.Core.Run.{running, step}
use merry_v.Core.Cycle.{fetch, step-fetch}
use merry_v.Core.Asks.Dispatch.{core_of}
use merry_v.Os.{Os, Host}
use merry_v.Os.Run.{ended, start_loop}
use merry_v.Os.Drain.{AllHalts, halts-end}
use merry_v.Os.Cores.{Machine, core_in, core_after, put_back}

-- A running core whose next instruction is a HALT executes it.
step-halt :
    (io : Stdio) (fl : Floats) (e : Core.Host) (c : Core)
    → c.stop_running ≡ false
    → c.pc < size c.inst_mem
    → c.pc < address_limit
    → decode (flat c.inst_mem c.pc) ≡ op_halt
    → step io fl e c ≡ running (halt (fetch c))
unfolding dispatch
step-halt io fl e c on inside lt op =
    let here : ltb c.pc (size c.inst_mem) ≡ true = ground arith in
    step-fetch io fl e c on lt
    ∙ rw here (ap (λ opcode. running (dispatch io fl e opcode (fetch c))) op)

append-AllHalts :
    (rs : List Request) (r : Request)
    → AllHalts rs
    → r.request_number ≡ 151
    → AllHalts (rs ++ (r ∷ []))
append-AllHalts [] r h k = (k, tt)
append-AllHalts (x ∷ rs) r h k = (h.0, append-AllHalts rs r h.1 k)

-- If the halts of all active cores but one wait on a ring that has room, in a machine that
-- takes requests, and core `id`, which is running, comes to a HALT in the instruction memory at
-- a program counter below 2 ^ 49, the machine ends: after that core's round the loop ends, at
-- the latest in the round after the last halt. The count of active cores fits 64 bits.
pub core_after-halt-ends :
    (io : Stdio) (fl : Floats) (e : Core.Host) (id : ℕ) (m : Machine) (rs : List Request)
    (hosts : ℕ → Host) (i : ℕ)
    → let c = core_in m id in
      c.stop_running ≡ false
      → c.pc < size c.inst_mem
      → c.pc < address_limit
      → decode (flat c.inst_mem c.pc) ≡ op_halt
      → IsRing m.os.hdlr.queue
      → m.os.hdlr.handle_more ≡ true
      → m.os.hdlr.queue.data_count < m.os.hdlr.queue.node_count
      → AllHalts rs
      → contents m.os.hdlr.queue ≡ rs
      → length rs + 1 ≡ m.os.active_core_count
      → m.os.active_core_count < word_mod
      → (o : Os) × (start_loop hosts (λ k s. s) (length rs + 2) i (core_after io fl e id m).os
          ≡ ended o)
unfolding halt request
core_after-halt-ends io fl e id m rs hosts i on inside lt op ring more room halts waiting count
      small =
    let c = core_in m id in
    let executed = ap core_of (step-halt io fl e c on inside lt op) in
    let (done, ring', waiting', _) =
      push_request_hdlr-room req_reqhalt c.core_id c.cond ring more room in
    let last : Request = record {
      request_number = req_reqhalt;
      wait_lock = c.cond;
      id = c.core_id;
    } in
    let all = rs ++ (last ∷ []) in
    let after = put_back id (halt (fetch c)) m.os in
    let len : length all ≡ length rs + 1 = length-append rs (last ∷ []) in
    let (o, loop) =
      halts-end hosts all i after (append-AllHalts rs last halts refl) ring'
        (waiting' ∙ ap (λ l. l ++ (last ∷ [])) waiting) (len ∙ count) small in
    (
      o,
      ap (λ c'. start_loop hosts (λ k s. s) (length rs + 2) i (put_back id c' m.os)) executed
          ∙ ap (λ n. start_loop hosts (λ k s. s) n i after) {y = suc (length all)}
              (omega (arith, len))
          ∙ loop,
    )
