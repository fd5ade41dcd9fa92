-- ===== src/Numbers/Tests.antt =====
-- Numbers written and read back.
use maple_kernel.Base.{◌≡◌, refl, arith, some}
use maple_kernel.Numbers.{Memory, uitoa, string_to_uint}
use maple_kernel.Numbers.Read.{string_to_uint-uitoa}

abbrev empty : Memory
empty a = 0

string_to_uint-uitoa_example : string_to_uint 11 100 (uitoa 4096 100 empty).1 ≡ some 4096
string_to_uint-uitoa_example =
    string_to_uint-uitoa 11 4096 100 empty (omega arith) (omega arith) (omega arith) (omega arith)
      refl
