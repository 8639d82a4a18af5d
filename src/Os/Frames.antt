-- ===== src/Os/Frames.antt =====
-- What the requests of merry/merry_os.c keep of that which decides whether the machine goes on.
use merry_v.Common.{
  ℕ, ◌%◌, ◌≡◌, refl, ap, ◌∙◌, Bool, true, false, Option, none, some, arith, ◌==◌, if◌then◌else◌,
  length, set, length-set, Option-cases, inl, inr, word_max, update,
}
use merry_v.DMemory.{DAddress, add_new_page}
use merry_v.DMemory.Address.{get_byte_address, get_qword_address}
use merry_v.Core.{reg_ma, reg_mc}
use merry_v.Loader
use merry_v.Os.{Os, VCore, Host, reg, core_at, reg_mb, set_reg, panic}
use merry_v.Os.File.{
  c_string, open_new_file, close_open_file, read_from_file, write_to_file, seek_in_file,
}
use merry_v.Os.Requests.{
  call_function, execute_dynl, execute_dynul, execute_dyncall, execute_fopen, execute_fclose,
  execute_fread, execute_fwrite, execute_feof, execute_rewind, execute_mem,
}
use merry_v.Os.Run.{
  Service, halt, exit, new_core, dynl, dynul, dyncall, fopen, fclose, fread, fwrite, feof, rewind,
  mem, unknown, execute,
}

-- What decides whether the machine goes on.
pub record Frame : Type 0 where
  pub table : ℕ
  pub count : ℕ
  pub active : ℕ
  pub stopped : Bool
  pub held : Bool

abbrev pub frame : Os → Frame
frame os = record {
  table = length os.cores;
  count = os.core_count;
  active = os.active_core_count;
  stopped = os.stop;
  held = os.locked;
}

length-set-frame :
    (os : Os) (id : ℕ) (c : VCore)
    → record (frame os) { table = length (set os.cores id c) } ≡ frame os
length-set-frame os id c = ap (λ n. record (frame os) { table = n }) (length-set os.cores id c)

pub set_reg-frame : (id r v : ℕ) (os : Os) → frame (set_reg id r v os) ≡ frame os
set_reg-frame id r v os =
    let c = core_at os id in
    length-set-frame os id (record c { registers = update c.registers r v })

-- The frame of both outcomes of a test, or of a result, is the frame of what comes of it.
if-frame :
    {f : Frame} (b : Bool) (x y : Os) → frame x ≡ f → frame y ≡ f → frame (if b then x else y) ≡ f
if-frame true x y p q = p
if-frame false x y p q = q

option-frame {ℓ} :
    {A : Type ℓ} {f : Frame} (o : Option A) (x : Os) (g : A → Os)
    → frame x ≡ f
    → ((a : A) → frame (g a) ≡ f)
    → frame (elim o [ none ↦ x | some a ↦ g a ]) ≡ f
option-frame none x g p q = p
option-frame (some a) x g p q = q a

fclose-frame : (id : ℕ) (os : Os) → frame (execute_fclose id os) ≡ frame os
unfolding execute_fclose close_open_file panic
fclose-frame id os = if-frame (reg os id reg_mb == word_max) _ _ refl refl

feof-frame : (h : Host) (id : ℕ) (os : Os) → frame (execute_feof h id os) ≡ frame os
unfolding execute_feof panic
feof-frame h id os = if-frame (reg os id reg_mb == word_max) _ _ refl (length-set-frame os id _)

rewind-frame : (h : Host) (id : ℕ) (os : Os) → frame (execute_rewind h id os) ≡ frame os
unfolding execute_rewind seek_in_file panic
rewind-frame h id os = if-frame (reg os id reg_mb == word_max) _ _ refl refl

fwrite-frame : (h : Host) (id : ℕ) (os : Os) → frame (execute_fwrite h id os) ≡ frame os
unfolding execute_fwrite write_to_file panic
fwrite-frame h id os = if-frame (reg os id reg_mb == word_max) _ _ refl (length-set-frame os id _)

read_from_file-frame :
    (h : Host) (handle : ℕ) (store_in : Option DAddress) (n : ℕ) (os : Os)
    → frame (read_from_file h handle store_in n os).1 ≡ frame os
unfolding read_from_file
read_from_file-frame h handle store_in n os =
    elim (Option-cases (h.read (handle % 4294967296) store_in n)) [
      | inl failed ↦ rw (failed, read_from_file) refl
      | inr done ↦ rw (done.1, read_from_file) (option-frame store_in os _ refl (λ a. refl))
    ]

fread-frame : (h : Host) (id : ℕ) (os : Os) → frame (execute_fread h id os) ≡ frame os
unfolding execute_fread panic
fread-frame h id os =
    let (store_in, m) = get_byte_address os.data_mem (reg os id reg_ma) in
    let out =
      read_from_file h (reg os id reg_mb) store_in (reg os id reg_mc)
        (record os { data_mem = m }) in
    if-frame (reg os id reg_mb == word_max) _ _ refl (
      set_reg-frame id reg_ma out.0 out.1
      ∙ read_from_file-frame h (reg os id reg_mb) store_in (reg os id reg_mc)
          (record os { data_mem = m }))

fopen-frame : (h : Host) (id : ℕ) (os : Os) → frame (execute_fopen h id os) ≡ frame os
unfolding execute_fopen
fopen-frame h id os =
    let (name, m) = get_byte_address os.data_mem (reg os id reg_ma) in
    let os' = record os { data_mem = m } in
    option-frame
      (open_new_file h (elim name [ none ↦ none | some a ↦ some (c_string m a) ])
        (reg os id reg_mb % 4))
      (set_reg id reg_ma 1 os') (λ fd. set_reg id reg_ma 0 (set_reg id reg_mb fd os'))
      (set_reg-frame id reg_ma 1 os')
      (λ fd. set_reg-frame id reg_ma 0 (set_reg id reg_mb fd os') ∙ set_reg-frame id reg_mb fd os')

dynul-frame : (id : ℕ) (os : Os) → frame (execute_dynul id os) ≡ frame os
unfolding execute_dynul
dynul-frame id os =
    option-frame (Loader.unload_lib os.loader (reg os id reg_mb)).0 _ _ refl (λ lib. refl)

dynl-frame : (h : Host) (id : ℕ) (os : Os) → frame (execute_dynl h id os) ≡ frame os
unfolding execute_dynl panic
dynl-frame h id os = option-frame (get_byte_address os.data_mem (reg os id reg_ma)).0 _ _ refl (λ a.
    if-frame
      (Loader.load_lib h.libs os.loader
        (c_string (get_byte_address os.data_mem (reg os id reg_ma)).1 a)).0
      _ _ (length-set-frame os id _) (length-set-frame os id _))

call_function-frame :
    (h : Host) (id : ℕ) (param func_name : Option DAddress) (os : Os)
    → frame (call_function h id param func_name os) ≡ frame os
unfolding call_function panic
call_function-frame h id none func_name os = refl
call_function-frame h id (some param) none os = refl
call_function-frame h id (some param) (some a) os =
    if-frame
      (Loader.get_func_symbol h.libs os.loader (reg os id reg_mb) (c_string os.data_mem a) == 0) _ _
      refl (length-set-frame os id _)

dyncall-frame : (h : Host) (id : ℕ) (os : Os) → frame (execute_dyncall h id os) ≡ frame os
unfolding execute_dyncall
dyncall-frame h id os =
    let (param, m) = get_qword_address os.data_mem (reg os id reg_mc) in
    let (func_name, m') = get_byte_address m (reg os id reg_ma) in
    call_function-frame h id param func_name (record os { data_mem = m' })

mem-frame : (h : Host) (id : ℕ) (os : Os) → frame (execute_mem h id os) ≡ frame os
unfolding execute_mem
mem-frame h id os =
    if-frame (add_new_page h.realloc_ok h.malloc_ok h.fresh os.data_mem).0 _ _
      (length-set-frame os id _) (length-set-frame os id _)

abbrev pub changes_cores : Service → Bool
changes_cores halt = true
changes_cores exit = true
changes_cores new_core = true
changes_cores _ = false

-- Every request but halt, exit and new core is served, whatever its outcome, and keeps the number of
-- cores and of active cores, the stop flag and the lock.
pub execute-frame :
    (h : Host) (s : Service) (id : ℕ) (os : Os)
    → changes_cores s ≡ false
    → (os' : Os) × (execute h s id os ≡ some os') × (frame os' ≡ frame os)
unfolding execute
execute-frame h halt id os e = absurd (ground arith)
execute-frame h exit id os e = absurd (ground arith)
execute-frame h new_core id os e = absurd (ground arith)
execute-frame h dynl id os e = (execute_dynl h id os, refl, dynl-frame h id os)
execute-frame h dynul id os e = (execute_dynul id os, refl, dynul-frame id os)
execute-frame h dyncall id os e = (execute_dyncall h id os, refl, dyncall-frame h id os)
execute-frame h fopen id os e = (execute_fopen h id os, refl, fopen-frame h id os)
execute-frame h fclose id os e = (execute_fclose id os, refl, fclose-frame id os)
execute-frame h fread id os e = (execute_fread h id os, refl, fread-frame h id os)
execute-frame h fwrite id os e = (execute_fwrite h id os, refl, fwrite-frame h id os)
execute-frame h feof id os e = (execute_feof h id os, refl, feof-frame h id os)
execute-frame h rewind id os e = (execute_rewind h id os, refl, rewind-frame h id os)
execute-frame h mem id os e = (execute_mem h id os, refl, mem-frame h id os)
execute-frame h unknown id os e = (os, refl, refl)
