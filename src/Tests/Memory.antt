-- ===== src/Tests/Memory.antt =====
-- A memory where each address has its own low byte.
use swe3004_operating_system.Prelude.{ℕ, ◌+◌, ◌-◌, ◌%◌, ◌≡◌, if◌then◌else◌}
use swe3004_operating_system.Str.Bytes.{memset, memmove}
use swe3004_operating_system.Str.Bytes.Copying.{is_in, memset_lem, memmove_lem}

abbrev memory : ℕ → ℕ
memory a = a % 256

memset_lem_example :
    memset 100 257 8 memory 107 ≡ (if is_in 100 8 107 then 257 % 256 else memory 107)
memset_lem_example = memset_lem 100 257 8 107 memory

memmove_lem_example :
    memmove 102 100 5 memory 106
    ≡ (if is_in 102 5 106 then memory (100 + (106 - 102)) else memory 106)
memmove_lem_example = memmove_lem 102 100 5 106 memory
