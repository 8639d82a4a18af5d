-- ===== src/Os/Messages.antt =====
-- What merry/merry_os.c prints of an error, `merry_os_handle_error` and
-- `merry_os_handle_internal_module_error`, with the macros of merry/os/merry_os.h; and the request for
-- a new process, which the loop does not serve.
use Prim.Native.String.{String}
use merry_v.Common.{
  ℕ, zero, suc, length, ◌∙◌, ◌-◌, ◌≡◌, refl, Bool, true, false, ◌&&◌, ◌||◌, ◌++◌, List, [], ◌∷◌,
  arith, ◌==◌, leb, ltb, if◌then◌else◌, get_or, Bool-cases, inl, inr,
}
use merry_v.RequestHdlr
use merry_v.Core.{reg_ma}
use merry_v.Os.{Os, set_reg}

-- What is printed on stderr, by the macro; `unknown_code` is the text of merry_error, which is printed
-- as it stands, without the number, and `nothing` no text at all.
pub data Message : Type 0 where
  mem_error internal_module_error : String → Message
  general_error : String → String → Message
  unknown_code nothing : Message

-- The messages from MERRY_MEM_ACCESS_ERROR on; the place in the list is the number less 51.
abbrev pub error_messages : List Message
error_messages =
    mem_error "The provided address crossed the page boundary. Invalid addressing"
    ∷ mem_error "Request to access memory that doesn't exist. Invalid address"
    ∷ general_error "Div by zero" "Attempting to divide by zero"
    ∷ general_error "Stack Overflow" "Cannot perform stack operations"
    ∷ general_error "Stack Underflow" "Cannot perform stack operations"
    ∷ general_error "RSA Depth reached" "Program reached the function call depth"
    ∷ general_error "Bad instruction" "RET instruction without a CALL instruction; Not allowed"
    ∷ general_error "Invalid BP offsetting"
        "The requested offset goes beyond the bounds of the stack"
    ∷ general_error "Dynamic Loading Failed" "The requested library couldn't be loaded"
    ∷ general_error "Dynamic Call Failed"
        "The dynamic function call failed; Maybe the name was incorrect?"
    ∷ general_error "Failed to perform file operations"
        "The file handle is NULL and trying to perform operations on a NULL handle is not a good idea."
    ∷ general_error "Internal Machine Error"
        "This isn't your fault most probably, try running the program again."
    ∷ []

-- The switch of `merry_os_handle_error`.
unfoldable pub error_message : ℕ → Message
error_message error =
    if ltb error 51 then unknown_code else get_or error_messages (error - 51) unknown_code

-- The switch of `merry_os_handle_internal_module_error`, which has one case and no default.
unfoldable pub module_message : ℕ → Message
module_message error_num =
    if error_num == 1
    then internal_module_error "The request buffer hit maximum capacity. Cannot fulfill requests"
    else nothing

-- What the loop prints of a request number up to 150.
unfoldable pub report : ℕ → Message
unfolding error_message module_message
report number = if leb number 50 then module_message number else error_message number

abbrev pub has_text : Message → Bool
has_text unknown_code = false
has_text nothing = false
has_text _ = true

abbrev AllText : List Message → Type 0
AllText [] = Unit
AllText (m ∷ ms) = (has_text m ≡ true) × AllText ms

get_or-has_text :
    (ms : List Message) (i : ℕ)
    → AllText ms
    → has_text (get_or ms i unknown_code) ≡ ltb i (length ms)
get_or-has_text [] i h = ground arith
get_or-has_text (m ∷ ms) zero h = h.0 ∙ ground arith
get_or-has_text (m ∷ ms) (suc i) h = get_or-has_text ms i h.1 ∙ ground arith

-- An error number has a text of its own exactly if it is that of a full request buffer or one of the
-- twelve errors of the program.
pub report-has_text :
    (number : ℕ) → has_text (report number) ≡ (number == 1 || leb 51 number && leb number 62)
unfolding report error_message module_message
report-has_text number = elim (Bool-cases (leb number 50)) [
  | inl internal ↦ elim (Bool-cases (number == 1)) [
    | inl full ↦ rw (internal, full) refl
    | inr other ↦ let low : leb 51 number ≡ false = ground arith in rw (internal, other, low) refl
  ]
  | inr program ↦
      let above : ltb number 51 ≡ false = ground arith in
      rw (program, above)
        (get_or-has_text error_messages (number - 51) (
          refl,
          (
            refl,
            (refl, (refl, (refl, (refl, (refl, (refl, (refl, (refl, (refl, (refl, tt)))))))))),
          ),
        )
          ∙ ground arith)
]

-- What `fork` returns: an error, 0 in the new process, or the number of that process.
pub data Forked : Type 0 where
  failed child : Forked
  parent : ℕ → Forked

-- `merry_os_new_proc_init`, which also frees the tables of cores and threads, and all cores but core 0.
unfoldable pub new_proc_init : Os → Os
new_proc_init os =
    let (effects, h) = RequestHdlr.kill_requests os.hdlr in
    record os { hdlr = h; effects = os.effects ++ effects }

-- `merry_os_execute_request_newprocess`, with whether it reports success.
unfoldable pub execute_newprocess : Forked → ℕ → Os → Bool × Os
unfolding new_proc_init
execute_newprocess failed id os = (false, set_reg id reg_ma 1 os)
execute_newprocess child id os = (true, new_proc_init os)
execute_newprocess (parent pid) id os = (false, set_reg id reg_ma 1 os)

-- The process that asked for a new one cannot tell whether there is one.
pub newprocess_unknown :
    (pid id : ℕ) (os : Os) → execute_newprocess (parent pid) id os ≡ execute_newprocess failed id os
unfolding execute_newprocess
newprocess_unknown pid id os = refl
