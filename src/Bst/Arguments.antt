-- ===== src/Bst/Arguments.antt =====
-- The arguments of bst.c: `main` reads them as `parse_args` of rbtree.c does, in the same statements, and passes the two
-- sizes to `test` as values of `int`, where a size that is not positive stands for a default.
use dsa.Arguments.{Text, Action, interactive, usage_exit, statistics, parse_args}
use dsa.Console.{Conversion}
use dsa.Prelude.Int.{ℤ, pos, negsuc}
use dsa.Prelude.{
  ℕ, ◌-◌, ◌%◌, ◌^◌, ◌<◌, ◌≡◌, ◌==◌, refl, if◌then◌else◌, ltb, Bool-cases, inl, inr, List, arith,
}

-- `unsigned long` to `int`: the low 32 bits, in two's complement
unfoldable pub to_int : ℕ → ℤ
to_int n = let low = n % 2 ^ 32 in if ltb low (2 ^ 31) then pos low else negsuc (2 ^ 32 - 1 - low)

-- `if (n <= 0) n = N` at the start of `test`
abbrev pub or_default : (default : ℕ) → ℤ → ℕ
or_default default (pos n) = if n == 0 then default else n
or_default default (negsuc n) = default

-- the arguments of `main`, with the numbers of trees and of nodes that `test` goes by
unfoldable pub main_args : (strtoul : Text → Conversion ℕ) → List Text → Action
unfolding to_int
main_args strtoul args = elim (parse_args strtoul args) [
  | interactive ↦ interactive
  | usage_exit status ↦ usage_exit status
  | statistics n m command ↦
      statistics (or_default 1000 (to_int n)) (or_default 1024 (to_int m)) command
]

-- a size that `int` can hold is taken as it is, and zero is the default
pub to_int-small :
    (default n : ℕ) → n < 2 ^ 31 → or_default default (to_int n) ≡ (if n == 0 then default else n)
unfolding to_int
to_int-small default n small =
    let low : n % 2 ^ 32 ≡ n = omega arith in
    elim (Bool-cases (ltb n (2 ^ 31))) [
      | inl e ↦ rw (low, e) refl
      | inr e ↦ absurd (ground (arith, e))
    ]

-- 2^32 and more trees wrap around
pub to_int-wraps : (default : ℕ) → or_default default (to_int (2 ^ 32)) ≡ default
unfolding to_int
to_int-wraps default = refl
