-- ===== src/Hash/Arguments.antt =====
-- The arguments of hashtable.c: the loop over `argv` in `main`, and `parse_ulong_arg`, up to the test that they ask for. Code
-- that exits is the status it exits with.
use dsa.Arguments.{Text, same, help_option}
use dsa.Console.{Conversion, at_nul}
use dsa.Prelude.Int.{pos, eqb_ℤ}
use dsa.Prelude.{
  ℕ, ◌<◌, ◌≡◌, Bool, true, not, ◌||◌, Option, none, some, Option-cases, Bool-cases, inl, inr, ◌==◌,
  if◌then◌else◌, List, [], ◌∷◌, arith,
}

-- what `main` goes on with after the arguments; `usage_exit` is `usage` and `exit`
pub data Task : Type 0 where
  numbers : (verbose : Bool) → (count buckets : ℕ) → Task
  strings : (verbose : Bool) → (buckets : ℕ) → Task
  interactive : (verbose : Bool) → Task
  usage_exit : (status : ℕ) → Task

abbrev pub numtest_word : Text
numtest_word = b'n' ∷ b'u' ∷ b'm' ∷ b't' ∷ b'e' ∷ b's' ∷ b't' ∷ []

abbrev pub strtest_word : Text
strtest_word = b's' ∷ b't' ∷ b'r' ∷ b't' ∷ b'e' ∷ b's' ∷ b't' ∷ []

abbrev pub verbose_option : Text
verbose_option = b'-' ∷ b'v' ∷ []

-- the arguments after the first of those that are left
abbrev more : List Text → List Text
more [] = []
more (a ∷ args) = args

module _ (strtoul : Text → Conversion ℕ) where
  -- `parse_ulong_arg` of the first of the arguments that are left, or of the NULL at the end of `argv`
  unfoldable pub parse_ulong_arg : List Text → Option ℕ
  parse_ulong_arg [] = none
  parse_ulong_arg ([] ∷ args) = none
  parse_ulong_arg ((b ∷ s) ∷ args) =
      let c = strtoul (b ∷ s) in
      if not (eqb_ℤ c.errno (pos 0)) || not (at_nul c.rest) || (c.value == 0)
      then none
      else some c.value

  -- `numtest N B`
  abbrev numbers_task : (verbose : Bool) → List Text → Task
  unfolding parse_ulong_arg
  numbers_task verbose args = elim (parse_ulong_arg args) [
    | none ↦ usage_exit 1
    | some n ↦ elim (parse_ulong_arg (more args)) [
      | none ↦ usage_exit 1
      | some b ↦ numbers verbose n b
    ]
  ]

  -- `strtest B`
  abbrev strings_task : (verbose : Bool) → List Text → Task
  unfolding parse_ulong_arg
  strings_task verbose args = elim (parse_ulong_arg args) [
    | none ↦ usage_exit 1
    | some b ↦ strings verbose b
  ]

  -- the loop, with the value of `verbose`
  unfoldable pub task_of : (verbose : Bool) → List Text → Task
  unfolding parse_ulong_arg
  task_of verbose [] = interactive verbose
  task_of verbose (a ∷ args) =
      let rest = task_of true args in
      if same a numtest_word
      then numbers_task verbose args
      else if same a strtest_word
      then strings_task verbose args
      else if same a help_option
      then usage_exit 0
      else if same a verbose_option
      then rest
      else usage_exit 1

  parse_ulong_arg-positive : (args : List Text) (n : ℕ) → parse_ulong_arg args ≡ some n → 0 < n
  unfolding parse_ulong_arg
  parse_ulong_arg-positive [] n e = cc
  parse_ulong_arg-positive ([] ∷ args) n e = cc
  parse_ulong_arg-positive ((b ∷ s) ∷ args) n e = ground (arith, e)

  -- the tests run with sizes that are not zero
  abbrev pub HasSizes : Task → Type 0
  HasSizes (numbers v n b) = (0 < n) × (0 < b)
  HasSizes (strings v b) = 0 < b
  HasSizes (interactive v) = Unit {0}
  HasSizes (usage_exit status) = Unit {0}

  numbers_task-HasSizes : (v : Bool) (args : List Text) → HasSizes (numbers_task v args)
  unfolding parse_ulong_arg
  numbers_task-HasSizes v args = elim (Option-cases (parse_ulong_arg args)) [
    | inl e ↦ rw (HasSizes, e) tt
    | inr (n, e) ↦ elim (Option-cases (parse_ulong_arg (more args))) [
      | inl f ↦ rw (HasSizes, e, f) tt
      | inr (b, f) ↦
          rw (HasSizes, e, f)
            (parse_ulong_arg-positive args n e, parse_ulong_arg-positive (more args) b f)
    ]
  ]

  strings_task-HasSizes : (v : Bool) (args : List Text) → HasSizes (strings_task v args)
  unfolding parse_ulong_arg
  strings_task-HasSizes v args = elim (Option-cases (parse_ulong_arg args)) [
    | inl e ↦ rw (HasSizes, e) tt
    | inr (b, e) ↦ rw (HasSizes, e) (parse_ulong_arg-positive args b e)
  ]

  -- Whatever the arguments are, a test that runs has sizes that are not zero.
  pub task_of-HasSizes : (v : Bool) (args : List Text) → HasSizes (task_of v args)
  unfolding task_of
  task_of-HasSizes v [] = tt
  task_of-HasSizes v (a ∷ args) = elim (Bool-cases (same a numtest_word)) [
    | inl e ↦ rw e (numbers_task-HasSizes v args)
    | inr e ↦ elim (Bool-cases (same a strtest_word)) [
      | inl f ↦ rw (e, f) (strings_task-HasSizes v args)
      | inr f ↦ elim (Bool-cases (same a help_option)) [
        | inl g ↦ rw (e, f, g) tt
        | inr g ↦ elim (Bool-cases (same a verbose_option)) [
          | inl h ↦ rw (e, f, g, h) (task_of-HasSizes true args)
          | inr h ↦ rw (e, f, g, h) tt
        ]
      ]
    ]
  ]
