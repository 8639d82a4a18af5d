-- ===== src/Core/Asks.antt =====
-- What a core of merry/merry_core.c can ask of the request handler: nothing, one panic or one request,
-- as a relation, and the bodies that the instructions share. The children are about the instructions
-- and the switch.
pub mod Instructions
pub mod Stacks
pub mod Dispatch
use merry_v.Common.{
  ℕ, ◌≡◌, refl, ◌++◌, true, false, Bool, Bool-cases, inl, inr, Option, none, some, List,
  if◌then◌else◌,
}
use merry_v.DMemory.{DMemory}
use merry_v.Memory.{Memory}
use merry_v.Memory
use merry_v.RequestHdlr.{RequestHdlr, Effect}
use merry_v.RequestHdlr
use merry_v.Core.{Core, set_reg, stop_with, raise, get_immediate, immediate_from}
use merry_v.Core.ArithMem.{with_read}
use merry_v.Core.LoadStore.{load_from, store_to}

-- The request handler, and what was asked of the threads so far.
pub record Said : Type 0 where
  pub hdlr : RequestHdlr
  pub effects : List Effect

abbrev pub said : Core → Said
said c = record { hdlr = c.hdlr; effects = c.effects }

abbrev pub panicked : ℕ → Said → Said
panicked error s =
    let (effects, h) = RequestHdlr.panic s.hdlr error in
    record { hdlr = h; effects = s.effects ++ effects }

abbrev pub requested : ℕ → ℕ → Option ℕ → Said → Said
requested number id cond s =
    let (_, effects, h) = RequestHdlr.push_request_hdlr s.hdlr number id cond in
    record { hdlr = h; effects = s.effects ++ effects }

pub data Saying (id : ℕ) (cond : Option ℕ) (s : Said) : Said → Type 0 where
  silent : Saying id cond s s
  panics : (error : ℕ) → Saying id cond s (panicked error s)
  requests : (number : ℕ) → Saying id cond s (requested number id cond s)

abbrev pub Asks : Core → Core → Type 0
Asks c c' = Saying c.core_id c.cond (said c) (said c')

pub raise-Asks : (error : ℕ) (c : Core) → Asks c (raise error c)
unfolding raise
raise-Asks error c = panics error

pub stop_with-Asks : (error : ℕ) (c : Core) → Asks c (stop_with error c)
unfolding stop_with
stop_with-Asks error c = panics error

-- Both outcomes of a test.
pub if-Asks : (b : Bool) (c x y : Core) → Asks c x → Asks c y → Asks c (if b then x else y)
if-Asks true c x y p q = p
if-Asks false c x y p q = q

immediate_from-Asks : (out : Option ℕ × Memory) (c : Core) → Asks c (immediate_from out c).1
unfolding immediate_from
immediate_from-Asks (none, m) c = panics m.error
immediate_from-Asks (some v, m) c = silent

pub get_immediate-Asks : (c : Core) → Asks c (get_immediate c).1
unfolding get_immediate
get_immediate-Asks c = immediate_from-Asks _ (record c { pc = _ })

pub with_read-Asks :
    (out : Option ℕ × DMemory) (c : Core) (next : ℕ → Core → Core)
    → ((temp : ℕ) (m : DMemory) → Asks c (next temp (record c { data_mem = m })))
    → Asks c (with_read out c next)
unfolding with_read stop_with
with_read-Asks (none, m) c next h = panics m.error
with_read-Asks (some temp, m) c next h = h temp m

pub store_to-Asks : (out : Bool × DMemory) (c : Core) → Asks c (store_to out c)
unfolding store_to stop_with
store_to-Asks (true, m) c = silent
store_to-Asks (false, m) c = panics m.error

pub load_from-Asks : (out : Option ℕ × DMemory) (reg : ℕ) (c : Core) → Asks c (load_from out reg c)
unfolding load_from
load_from-Asks out reg c = with_read-Asks out c (set_reg reg) (λ temp m. silent)
