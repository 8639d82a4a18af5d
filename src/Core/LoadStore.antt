-- ===== src/Core/LoadStore.antt =====
-- The loads and stores of merry/merry_core.c between a register and the data memory, by width, with
-- the address from the instruction or from a register, plain and atomic.
use merry_v.Common.{ℕ, Bool, Option, if◌then◌else◌}
use merry_v.Core.{Core, Host, lower_top_reg, lower_up_reg, set_reg, stop_with}
use merry_v.DMemory.{DMemory}
use merry_v.DMemory.Access.{
  byte, word, dword, qword, read, write, read_byte_atm, read_word_atm, read_dword_atm,
  read_qword_atm, write_byte_atm, write_word_atm, write_dword_atm, write_qword_atm,
}
use merry_v.Core.ArithMem.{with_read}

-- The bodies that the loads and the stores share, given the outcome of the access. A failed access
-- raises the memory's error and stops the core.
unfoldable pub load_from : Option ℕ × DMemory → ℕ → Core → Core
unfolding with_read
load_from outcome reg c = with_read outcome c (set_reg reg)

unfoldable pub store_to : Bool × DMemory → Core → Core
unfolding stop_with
store_to (stored, m) c =
    if stored then record c { data_mem = m } else stop_with m.error (record c { data_mem = m })

unfoldable pub load : ℕ → Core → Core
unfolding load_from read
load address c = load_from (read qword c.data_mem address) (lower_top_reg c.current_inst) c

unfoldable pub store : ℕ → Core → Core
unfolding store_to write
store address c =
    store_to (write qword c.data_mem address (c.registers (lower_top_reg c.current_inst))) c

unfoldable pub loadb : ℕ → Core → Core
unfolding load_from read
loadb address c = load_from (read byte c.data_mem address) (lower_top_reg c.current_inst) c

unfoldable pub storeb : ℕ → Core → Core
unfolding store_to write
storeb address c =
    store_to (write byte c.data_mem address (c.registers (lower_top_reg c.current_inst))) c

unfoldable pub loadw : ℕ → Core → Core
unfolding load_from read
loadw address c = load_from (read word c.data_mem address) (lower_top_reg c.current_inst) c

unfoldable pub storew : ℕ → Core → Core
unfolding store_to write
storew address c =
    store_to (write word c.data_mem address (c.registers (lower_top_reg c.current_inst))) c

unfoldable pub loadd : ℕ → Core → Core
unfolding load_from read
loadd address c = load_from (read dword c.data_mem address) (lower_top_reg c.current_inst) c

unfoldable pub stored : ℕ → Core → Core
unfolding store_to write
stored address c =
    store_to (write dword c.data_mem address (c.registers (lower_top_reg c.current_inst))) c

unfoldable pub load_reg : ℕ → Core → Core
unfolding load_from read
load_reg address c = load_from (read qword c.data_mem address) (lower_up_reg c.current_inst) c

unfoldable pub store_reg : ℕ → Core → Core
unfolding store_to write
store_reg address c =
    store_to (write qword c.data_mem address (c.registers (lower_up_reg c.current_inst))) c

unfoldable pub loadb_reg : ℕ → Core → Core
unfolding load_from read
loadb_reg address c = load_from (read byte c.data_mem address) (lower_up_reg c.current_inst) c

unfoldable pub storeb_reg : ℕ → Core → Core
unfolding store_to write
storeb_reg address c =
    store_to (write byte c.data_mem address (c.registers (lower_up_reg c.current_inst))) c

unfoldable pub loadw_reg : ℕ → Core → Core
unfolding load_from read
loadw_reg address c = load_from (read word c.data_mem address) (lower_up_reg c.current_inst) c

unfoldable pub storew_reg : ℕ → Core → Core
unfolding store_to write
storew_reg address c =
    store_to (write word c.data_mem address (c.registers (lower_up_reg c.current_inst))) c

unfoldable pub loadd_reg : ℕ → Core → Core
unfolding load_from read
loadd_reg address c = load_from (read dword c.data_mem address) (lower_up_reg c.current_inst) c

unfoldable pub stored_reg : ℕ → Core → Core
unfolding store_to write
stored_reg address c =
    store_to (write dword c.data_mem address (c.registers (lower_up_reg c.current_inst))) c

unfoldable pub atm_load : ℕ → Core → Core
unfolding load_from read_qword_atm
atm_load address c = load_from (read_qword_atm c.data_mem address) (lower_top_reg c.current_inst) c

unfoldable pub atm_store : ℕ → Core → Core
unfolding store_to write_qword_atm
atm_store address c =
    store_to (write_qword_atm c.data_mem address (c.registers (lower_top_reg c.current_inst))) c

unfoldable pub atm_loadb : ℕ → Core → Core
unfolding load_from read_byte_atm
atm_loadb address c = load_from (read_byte_atm c.data_mem address) (lower_top_reg c.current_inst) c

unfoldable pub atm_storeb : ℕ → Core → Core
unfolding store_to write_byte_atm
atm_storeb address c =
    store_to (write_byte_atm c.data_mem address (c.registers (lower_top_reg c.current_inst))) c

unfoldable pub atm_loadw : ℕ → Core → Core
unfolding load_from read_word_atm
atm_loadw address c = load_from (read_word_atm c.data_mem address) (lower_top_reg c.current_inst) c

unfoldable pub atm_storew : ℕ → Core → Core
unfolding store_to write_word_atm
atm_storew address c =
    store_to (write_word_atm c.data_mem address (c.registers (lower_top_reg c.current_inst))) c

unfoldable pub atm_loadd : Host → ℕ → Core → Core
unfolding load_from read_dword_atm
atm_loadd e address c =
    load_from (read_dword_atm e.host_word c.data_mem address) (lower_top_reg c.current_inst) c

unfoldable pub atm_stored : ℕ → Core → Core
unfolding store_to write_dword_atm
atm_stored address c =
    store_to (write_dword_atm c.data_mem address (c.registers (lower_top_reg c.current_inst))) c
