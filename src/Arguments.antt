-- ===== src/Arguments.antt =====
-- The arguments of the programs: the sizes that bst.c and rbtree.c take with `-test`.
pub mod Sizes
use dsa.Console.{Conversion, at_nul}
use dsa.Prelude.Int.{pos, eqb_ℤ}
use dsa.Prelude.{
  ℕ, Bool, true, false, not, ◌||◌, ◌&&◌, Option, none, some, ◌==◌, if◌then◌else◌, List, [], ◌∷◌,
  length,
}

-- An argument: its bytes, without the zero byte at its end.
abbrev pub Text : Type 0
Text = List ℕ

-- `!strcmp(s, t)`
abbrev pub same : Text → Text → Bool
same [] [] = true
same [] (c ∷ t) = false
same (b ∷ s) [] = false
same (b ∷ s) (c ∷ t) = (b == c) && same s t

-- `!strncmp(s, prefix, n)` with the length of the prefix, and then `s + n`
abbrev pub strip_prefix : (prefix s : Text) → Option Text
strip_prefix [] s = some s
strip_prefix (c ∷ t) [] = none
strip_prefix (c ∷ t) (b ∷ s) = if b == c then strip_prefix t s else none

-- `*s == c`, and `s + 1`
abbrev pub starts : ℕ → Text → Bool
starts c [] = false
starts c (b ∷ s) = b == c

abbrev pub tail : Text → Text
tail [] = []
tail (b ∷ s) = s

-- `errno != 0 || endptr == s`
abbrev pub is_refused : Text → Conversion ℕ → Bool
is_refused s c = not (eqb_ℤ c.errno (pos 0)) || (length c.rest == length s)

module _ (strtoul : Text → Conversion ℕ) where
  -- What follows `-test`: the two numbers, zeros if there are none, or `exit(1)` after the usage.
  unfoldable pub sizes : Text → Option (ℕ × ℕ)
  sizes [] = some (0, 0)
  sizes (b ∷ s) =
      let c = strtoul s in
      let d = strtoul (tail c.rest) in
      if not (b == b'=')
      then none
      else if is_refused s c || not (starts b',' c.rest)
      then none
      else if is_refused (tail c.rest) d || not (at_nul d.rest)
      then none
      else some (c.value, d.value)

-- what the arguments ask for
pub data Action : Type 0 where
  interactive : Action
  usage_exit : (status : ℕ) → Action
  statistics : (num_trees num_nodes : ℕ) → (command : List Text) → Action

abbrev pub test_option : Text
test_option = b'-' ∷ b't' ∷ b'e' ∷ b's' ∷ b't' ∷ []

abbrev pub help_option : Text
help_option = b'-' ∷ b'h' ∷ []

-- `parse_args`, with the arguments after the name of the program
module _ (strtoul : Text → Conversion ℕ) where
  unfoldable pub parse_args : List Text → Action
  unfolding sizes
  parse_args [] = interactive
  parse_args (a ∷ rest) =
      if (length rest == 0) && same a help_option
      then usage_exit 0
      else elim (strip_prefix test_option a) [
        | none ↦ interactive
        | some s ↦ elim (sizes strtoul s) [
          | none ↦ usage_exit 1
          | some sz ↦ statistics sz.0 sz.1 rest
        ]
      ]
