-- ===== src/Os/Requests.antt =====
-- The requests that the operating system serves: the functions `merry_os_execute_request_...` of
-- merry/merry_os.c. What they return is not looked at by their caller and left out.
use merry_v.Common.{
  ℕ, ◌+◌, ◌-◌, ◌*◌, ◌%◌, true, Option, none, some, List, [], ◌∷◌, ◌++◌, ◌==◌, if◌then◌else◌, wrap,
  word_max, set,
}
use merry_v.DMemory.{DAddress, page_size, add_new_page}
use merry_v.DMemory.Address.{get_byte_address, get_qword_address}
use merry_v.Core.{reg_ma, reg_mc}
use merry_v.Loader
use merry_v.Os.{
  Os, Host, dlclose, reg_mb, reg_md, ret_failure, core_at, reg, set_reg, panic, boot_core, add_core,
}
use merry_v.Os.File.{
  c_string, open_new_file, close_open_file, read_from_file, write_to_file, seek_in_file,
}

-- MERRY_DYNL_FAILED, MERRY_DYNCALL_FAILED and MERRY_FILEHANDLE_NULL
abbrev pub dynl_failed : ℕ
dynl_failed = 59

abbrev pub dyncall_failed : ℕ
dyncall_failed = 60

abbrev pub filehandle_null : ℕ
filehandle_null = 61

-- `merry_os_execute_request_halt`
unfoldable pub execute_halt : ℕ → Os → Os
execute_halt id os =
    let c = core_at os id in
    let os' = record os { cores = set os.cores id (record c { stop_running = true }) } in
    if os.core_count == 1 then record os' { stop = true; ret = c.registers reg_ma } else os'

-- `merry_os_execute_request_new_core`, once `merry_os_add_core` has returned.
unfoldable pub boot_new_core : Host → ℕ → ℕ × Os → Os
unfolding boot_core
boot_new_core h id (added, os) =
    let (booted, os') = boot_core h (os.core_count - 1) (reg os id reg_ma) os in
    if added == ret_failure then set_reg id reg_ma 1 os else set_reg id reg_ma booted os'

-- `merry_os_execute_request_new_core`; `none` if it waits for ever.
unfoldable pub execute_new_core : Host → ℕ → Os → Option Os
unfolding add_core boot_new_core
execute_new_core h id os = elim (add_core h os) [
  | none ↦ none
  | some added ↦ some (boot_new_core h id added)
]

-- `merry_os_execute_request_dynl`
unfoldable pub execute_dynl : Host → ℕ → Os → Os
unfolding get_byte_address Loader.load_lib panic
execute_dynl h id os =
    let (name, m) = get_byte_address os.data_mem (reg os id reg_ma) in
    let os1 = record os { data_mem = m } in
    elim name [
      | none ↦ panic m.error os1
      | some a ↦
          let (ok, handle, loader) = Loader.load_lib h.libs os.loader (c_string m a) in
          let os2 = set_reg id reg_mb handle (record os1 { loader = loader }) in
          if ok then os2 else panic dynl_failed os2
    ]

-- `merry_os_execute_request_dynul`
unfoldable pub execute_dynul : ℕ → Os → Os
unfolding Loader.unload_lib
execute_dynul id os =
    let (closed, loader) = Loader.unload_lib os.loader (reg os id reg_mb) in
    elim closed [
      | none ↦ record os { loader = loader }
      | some lib ↦ record os { loader = loader; calls = os.calls ++ (dlclose lib ∷ []) }
    ]

-- `merry_os_execute_request_dyncall` with its two pointers; 0 is a NULL function.
unfoldable pub call_function : Host → ℕ → Option DAddress → Option DAddress → Os → Os
unfolding Loader.get_func_symbol panic
call_function h id none func_name os = panic dyncall_failed os
call_function h id (some param) none os = panic dyncall_failed os
call_function h id (some param) (some a) os =
    let function =
      Loader.get_func_symbol h.libs os.loader (reg os id reg_mb) (c_string os.data_mem a) in
    if function == 0 then panic dyncall_failed os else set_reg id reg_ma (h.call function param) os

-- `merry_os_execute_request_dyncall`
unfoldable pub execute_dyncall : Host → ℕ → Os → Os
unfolding get_qword_address get_byte_address call_function
execute_dyncall h id os =
    let (param, m) = get_qword_address os.data_mem (reg os id reg_mc) in
    let (func_name, m') = get_byte_address m (reg os id reg_ma) in
    call_function h id param func_name (record os { data_mem = m' })

-- `merry_os_execute_request_fopen`
unfoldable pub execute_fopen : Host → ℕ → Os → Os
unfolding get_byte_address open_new_file
execute_fopen h id os =
    let (name, m) = get_byte_address os.data_mem (reg os id reg_ma) in
    let os' = record os { data_mem = m } in
    let path : Option (List ℕ) = elim name [ none ↦ none | some a ↦ some (c_string m a) ] in
    elim (open_new_file h path (reg os id reg_mb % 4)) [
      | none ↦ set_reg id reg_ma 1 os'
      | some fd ↦ set_reg id reg_ma 0 (set_reg id reg_mb fd os')
    ]

-- `merry_os_execute_request_fclose`
unfoldable pub execute_fclose : ℕ → Os → Os
unfolding close_open_file panic
execute_fclose id os =
    let handle = reg os id reg_mb in
    if handle == word_max then panic filehandle_null os else close_open_file handle os

-- `merry_os_execute_request_fread`
unfoldable pub execute_fread : Host → ℕ → Os → Os
unfolding get_byte_address read_from_file panic
execute_fread h id os =
    let handle = reg os id reg_mb in
    let (store_in, m) = get_byte_address os.data_mem (reg os id reg_ma) in
    let (n, os') =
      read_from_file h handle store_in (reg os id reg_mc) (record os { data_mem = m }) in
    if handle == word_max then panic filehandle_null os else set_reg id reg_ma n os'

-- `merry_os_execute_request_fwrite`
unfoldable pub execute_fwrite : Host → ℕ → Os → Os
unfolding get_byte_address write_to_file panic
execute_fwrite h id os =
    let handle = reg os id reg_mb in
    let (to_write, m) = get_byte_address os.data_mem (reg os id reg_ma) in
    let (n, os') =
      write_to_file h handle to_write (reg os id reg_mc) (record os { data_mem = m }) in
    if handle == word_max then panic filehandle_null os else set_reg id reg_ma n os'

-- `merry_os_execute_request_feof`: 0 if the read of one byte returns 0, and 1 otherwise.
unfoldable pub execute_feof : Host → ℕ → Os → Os
unfolding panic
execute_feof h id os =
    let handle = reg os id reg_mb in
    let result : ℕ = elim (h.read_tmp (handle % 4294967296)) [
      | none ↦ 1
      | some [] ↦ 0
      | some (b ∷ bs) ↦ 1
    ] in
    if handle == word_max then panic filehandle_null os else set_reg id reg_ma result os

-- `merry_os_execute_request_fseek`
unfoldable pub execute_fseek : Host → ℕ → Os → Os
unfolding seek_in_file panic
execute_fseek h id os =
    let handle = reg os id reg_mb in
    let (res, os') = seek_in_file h handle (reg os id reg_md) (reg os id reg_mc) os in
    if handle == 0
    then panic filehandle_null os
    else set_reg id reg_ma (if res == ret_failure then 1 else 0) os'

-- `merry_os_execute_request_ftell`
abbrev pub execute_ftell : ℕ → Os → Os
execute_ftell id os = os

-- `merry_os_execute_request_rewind`
unfoldable pub execute_rewind : Host → ℕ → Os → Os
unfolding seek_in_file panic
execute_rewind h id os =
    let handle = reg os id reg_mb in
    if handle == word_max then panic filehandle_null os else (seek_in_file h handle 0 0 os).1

-- `merry_os_execute_request_mem`
unfoldable pub execute_mem : Host → ℕ → Os → Os
unfolding add_new_page
execute_mem h id os =
    let (ok, m) = add_new_page h.realloc_ok h.malloc_ok h.fresh os.data_mem in
    let os' = record os { data_mem = m } in
    if ok
    then set_reg id reg_mb (wrap ((m.number_of_pages - 1) * page_size + 1)) os'
    else set_reg id reg_ma 1 os'
