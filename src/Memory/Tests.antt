-- ===== src/Memory/Tests.antt =====
-- A concrete instruction memory, and the theorems of the instruction memory at it.
use merry_v.Common.{◌/◌, ◌%◌, ◌≡◌, refl, true, none, some, [], ◌∷◌, arith, if◌then◌else◌, ◌==◌, ltb}
use merry_v.Memory.{Memory, zero_page, read, write, get_address, fault, qs_per_page}
use merry_v.Memory.Laws.{IsValid, flat, size, read_inst-linear, write-linear, get_address-linear}

abbrev mem : Memory
mem = record { pages = zero_page ∷ []; number_of_pages = 1; error = 0 }

mem-IsValid : IsValid mem
mem-IsValid = record { counted = refl; few = omega arith }

read_inst-linear_example :
    read mem 7 ≡ (if ltb 7 (size mem) then (some (flat mem 7), mem) else (none, fault mem))
read_inst-linear_example = read_inst-linear mem 7 (omega arith)

write-linear_example :
    ((write mem 7 5).0 ≡ true)
    × (flat (write mem 7 5).1 8 ≡ (if 7 == 8 then 5 else flat mem 8))
    × ((write mem 7 5).1.number_of_pages ≡ mem.number_of_pages)
write-linear_example = write-linear 7 5 8 mem-IsValid (omega arith) refl

get_address-linear_example : get_address mem 131073 ≡ (
    if ltb 131073 (size mem)
    then (some (record { page = 131073 / qs_per_page; offset = 131073 % qs_per_page }), mem)
    else (none, fault mem))
get_address-linear_example = get_address-linear mem 131073 (omega arith)
