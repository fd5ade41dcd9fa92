-- ===== src/Strings/Tests.antt =====
-- Two strings in memory, and instances of the laws of stdlib/string.c.
use maple_kernel.Base.{ℕ, ◌-◌, ◌≡◌, ◌^◌, refl, some, arith, update}
use maple_kernel.Strings.{strcmp, strncmp, strncmp_from}
use maple_kernel.Strings.Compare.{strcmp-strncmp}

-- "ab" at 100 and "ac" at 200.
abbrev two_strings : ℕ → ℕ
two_strings = update (update (update (update (λ a. 0) 100 0x61) 101 0x62) 200 0x61) 201 0x63

strcmp_test : strcmp 5 two_strings 100 200 ≡ some (2 ^ 32 - 1)
unfolding strcmp
strcmp_test = refl

strncmp_test : strncmp two_strings 100 200 1 ≡ 0
unfolding strncmp strncmp_from
strncmp_test = refl

strcmp-strncmp_example : strcmp 5 two_strings 100 200 ≡ some (strncmp two_strings 100 200 7)
strcmp-strncmp_example = strcmp-strncmp 5 7 2 two_strings 100 200 refl (omega arith) (omega arith)
