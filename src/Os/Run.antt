-- ===== src/Os/Run.antt =====
-- The loop of the operating system, `merry_os_start_vm` of merry/merry_os.c.
use merry_v.Common.{
  ℕ, zero, suc, ◌+◌, ◌-◌, Bool, true, false, Option, none, some, [], ◌∷◌, ◌++◌, leb, ◌==◌,
  if◌then◌else◌, get_or, wrap, word_mod,
}
use merry_v.Core.{reg_ma}
use merry_v.Queue.{Request}
use merry_v.RequestHdlr.{Effect, signal, wait}
use merry_v.RequestHdlr
use merry_v.Os.{Os, Host, ret_success, reg, boot_core, prepare_for_exit, handle_error}
use merry_v.Os.Requests.{
  execute_halt, execute_new_core, execute_dynl, execute_dynul, execute_dyncall, execute_fopen,
  execute_fclose, execute_fread, execute_fwrite, execute_feof, execute_rewind, execute_mem,
}

-- The loop over the cores that starts `merry_os_start_vm`, from core `i` on, with `n` rounds left. A
-- failure lowers the number of cores and stops them.
unfoldable pub boot_cores : Host → ℕ → ℕ → Os → Bool × Os
unfolding boot_core prepare_for_exit
boot_cores h zero i os = (true, os)
boot_cores h (suc n) i os =
    let (booted, os') = boot_core h i (get_or os.eat i 0) os in
    let rest = boot_cores h n (i + 1) os' in
    if booted == ret_success
    then rest
    else (false, prepare_for_exit (record os' { core_count = wrap (i + word_mod - 1) }))

-- The requests of merry/defs/merry_request.h.
pub data Service : Type 0 where
  halt exit new_core dynl dynul dyncall fopen fclose fread fwrite feof rewind mem unknown : Service

-- The inner switch of the loop: it has no case for _REQ_FSEEK, _REQ_FTELL and _REQ_NEWPROCESS.
unfoldable pub service : ℕ → Service
service number =
    if number == 151
    then halt
    else (if number == 152
        then exit
        else (if number == 153
            then new_core
            else (if number == 154
                then dynl
                else (if number == 155
                    then dynul
                    else (if number == 156
                        then dyncall
                        else (if number == 157
                            then fopen
                            else (if number == 158
                                then fclose
                                else (if number == 159
                                    then fread
                                    else (if number == 160
                                        then fwrite
                                        else (if number == 161
                                            then feof
                                            else (if number == 164
                                                then rewind
                                                else (if number == 165
                                                    then mem
                                                    else unknown))))))))))))

-- `none` if the request waits for ever.
unfoldable pub execute : Host → Service → ℕ → Os → Option Os
unfolding prepare_for_exit execute_halt execute_new_core execute_dynl execute_dynul execute_dyncall
    execute_fopen execute_fclose execute_fread execute_fwrite execute_feof execute_rewind
    execute_mem
execute h halt id os =
    let os' = execute_halt id os in
    some (record os' { active_core_count = wrap (os'.active_core_count + word_mod - 1) })
execute h exit id os =
    let os' = prepare_for_exit os in some (record os' { ret = reg os' id reg_ma })
execute h new_core id os = execute_new_core h id os
execute h dynl id os = some (execute_dynl h id os)
execute h dynul id os = some (execute_dynul id os)
execute h dyncall id os = some (execute_dyncall h id os)
execute h fopen id os = some (execute_fopen h id os)
execute h fclose id os = some (execute_fclose id os)
execute h fread id os = some (execute_fread h id os)
execute h fwrite id os = some (execute_fwrite h id os)
execute h feof id os = some (execute_feof h id os)
execute h rewind id os = some (execute_rewind h id os)
execute h mem id os = some (execute_mem h id os)
execute h unknown id os = some os

-- What the loop does with a request: 0 to 50 are errors of the modules, 51 to 150 errors of the
-- program. At last the core is woken up.
unfoldable pub serve : Host → Request → Os → Option Os
unfolding handle_error prepare_for_exit execute service
serve h req os =
    let wake : Os → Os = λ o. record o { effects = o.effects ++ (signal req.wait_lock ∷ []) } in
    if leb req.request_number 150
    then some (wake (prepare_for_exit (handle_error os)))
    else elim (execute h (service req.request_number) req.id os) [
      | none ↦ none
      | some os' ↦ some (wake os')
    ]

-- One round of the loop: it has ended, it goes on, it goes on after a sleep, or it waits for ever.
pub data Round : Type 0 where
  ended served slept : Os → Round
  blocked : Round

-- The condition variable gives the lock back locked.
unfoldable pub run_round : Host → Os → Round
unfolding serve
run_round h os =
    let (popped, out, hdlr) = RequestHdlr.pop_request_hdlr os.hdlr in
    let os' = record os { hdlr = hdlr } in
    if os.stop
    then ended os
    else (if os.active_core_count == 0 then ended os else elim out [
      | none ↦ slept (record os' { locked = true })
      | some req ↦ elim (serve h req os') [ none ↦ blocked | some next ↦ served next ]
    ])

-- The loop over at most `fuel` rounds; `meanwhile i` is what the cores do before round `i`, and
-- `hosts i` the host in it. The machine may run for ever.
unfoldable pub start_loop : (ℕ → Host) → (ℕ → Os → Os) → ℕ → ℕ → Os → Round
unfolding run_round
start_loop hosts meanwhile zero i os = served os
start_loop hosts meanwhile (suc fuel) i os = elim (run_round (hosts i) (meanwhile i os)) [
  | ended o ↦ ended o
  | served o ↦ start_loop hosts meanwhile fuel (i + 1) o
  | slept o ↦ start_loop hosts meanwhile fuel (i + 1) o
  | blocked ↦ blocked
]

-- `merry_os_start_vm`
unfoldable pub start_vm : (ℕ → Host) → (ℕ → Os → Os) → ℕ → Os → Round
unfolding boot_cores start_loop
start_vm hosts meanwhile fuel os =
    let (booted, os') = boot_cores (hosts 0) os.core_count 0 os in
    if booted then start_loop hosts meanwhile fuel 1 os' else ended os'
