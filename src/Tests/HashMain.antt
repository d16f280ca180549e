-- ===== src/Tests/HashMain.antt =====
-- The arguments and the prompts of hashtable.c on short inputs.
use dsa.Arguments.{Text}
use dsa.Console.{Reply, got}
use dsa.Hash.Arguments.{
  strings, usage_exit, numtest_word, strtest_word, verbose_option, parse_ulong_arg, task_of,
}
use dsa.Hash.Grow.{view}
use dsa.Hash.Iterate.{iterate, free, each_bucket}
use dsa.Hash.Keys.{num_hash, num_cmp, num_cmp-IsKeyed}
use dsa.Hash.Main.Ending.{at_end, blank_line, prompts-fault}
use dsa.Hash.Main.Round.{freed, put-Stored}
use dsa.Hash.Main.{
  Live, at_value, release, check, free_keyval, put, put_freed, prompts, finish, main,
}
use dsa.Hash.Set.{Stored}
use dsa.Hash.Tally.{store, stats, bucket_sizes}
use dsa.Hash.{
  Key, Table, Run, fault, ok, rem, to_int, bucket, init, move_chain, move_all, grow, make_room, set,
  get,
}
use dsa.Prelude.Int.{ℤ, pos}
use dsa.Prelude.{
  ℕ, zero, suc, ◌+◌, ◌≡◌, refl, Bool, true, false, ◌==◌, Option, none, some, List, [], ◌∷◌,
  if◌then◌else◌, arith,
}
use dsa.Tests.Hash.{table, table-IsValid}
use dsa.Tests.RbMain.{natural}
use mathlib.Core.List.{flatten}

abbrev eight : Text
eight = b'8' ∷ []

strings_args : task_of natural false (verbose_option ∷ strtest_word ∷ eight ∷ []) ≡ strings true 8
unfolding task_of parse_ulong_arg
strings_args = refl

numbers_args : task_of natural false (numtest_word ∷ eight ∷ []) ≡ usage_exit 1
unfolding task_of parse_ulong_arg
numbers_args = refl

-- the first address from 1 on that holds no string, or the buffer that is there
abbrev spare : (rounds : ℕ) → Key → Live → Key
spare zero p live = p
spare (suc k) p live = if live p then spare k (p + 1) live else p

abbrev buffer : Option Key → Live → Key
buffer none live = spare 20 1 live
buffer (some p) live = p

abbrev memory : Table → Bool
memory tbl = true

abbrev one_hash : Key → ℕ
one_hash key = 0

abbrev all_equal : Key → Key → ℤ
all_equal k q = pos 0

abbrev line : ℕ → Reply
line b = got (b ∷ 10 ∷ []) false

abbrev no_line : Reply
no_line = got (10 ∷ []) false

abbrev strings_of : Run (Option Live) → List Bool
strings_of (ok (some live)) = live 1 ∷ live 2 ∷ live 3 ∷ live 4 ∷ live 5 ∷ []
strings_of (ok none) = []
strings_of fault = []

-- the same key twice, with a value each: all strings are freed
main_run :
    strings_of (
      main one_hash all_equal memory memory buffer true
        (line b'k' ∷ line b'v' ∷ line b'k' ∷ no_line ∷ line b'w' ∷ no_line ∷ [])
        (λ p. false))
    ≡ false ∷ false ∷ false ∷ false ∷ false ∷ []
unfolding main prompts finish put put_freed check release free_keyval store stats bucket_sizes
    iterate free each_bucket rem to_int bucket init move_chain move_all grow make_room set get
main_run = refl

put-Stored_example :
    (tbl' : Table) × Stored num_hash num_cmp table 11 12 tbl'
    × (put num_hash num_cmp memory memory table 11 12 (λ p. true)
        ≡ ok (some (tbl', freed 11 (view num_hash num_cmp table 11) (λ p. true))))
put-Stored_example =
    put-Stored num_hash num_cmp memory memory num_cmp-IsKeyed table 11 12 (λ p. true) table-IsValid
      (omega arith) (omega arith) refl (λ e. omega (arith, e)) refl (unfold num_cmp flatten in tt)

prompts-fault_example :
    prompts num_hash num_cmp memory memory buffer
      (at_value 11 none)
      table
      (no_line ∷ [])
      (λ p. p == 11)
    ≡ fault
prompts-fault_example =
    prompts-fault num_hash num_cmp memory memory buffer table 11 none (no_line ∷ []) (λ p. p == 11)
      (blank_line refl at_end)
