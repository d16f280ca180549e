-- ===== src/Bst/Main.antt =====
-- `main` of bst.c after the arguments: its two prompts, from the answers of `getline` to the exit status.
pub mod Kept
pub mod Ends
use dsa.Bst.Dot.{print_dot}
use dsa.Bst.{Plain, insert, find, delete, preorder, num_cmp}
use dsa.Console.{Reply, got, failed, Conversion, chomp, at_nul, is_empty}
use dsa.Numbers.{Values}
use dsa.Prelude.Int.{ℤ, pos, ltb_ℤ, eqb_ℤ}
use dsa.Prelude.{ℕ, true, not, ◌||◌, Option, none, some, ◌==◌, if◌then◌else◌, update, List, [], ◌∷◌}
use dsa.Store.{Ptr, null, Store, Cmd, pure, ◌>>=◌, ◌>>◌, get_root, set_root, free}

-- a node of zeros from `calloc`
abbrev pub zeroed : Ptr → Store Plain → Store Plain
zeroed p s = record s {
  allocated = update s.allocated p true;
  parent = update s.parent p null;
  left = update s.left p null;
  right = update s.right p null;
}

-- how a prompt ends: no more numbers, with the input that is left, or the exit
pub data Ending : Type 0 where
  finished : Values → List Reply → Ending
  exited : Ending

-- `dummy` is the address of the `struct num` on the stack that holds the number to look for.
module _ (dummy : Ptr) (left_field right_field : Ptr → Ptr) (fuel : ℕ) (garbage : ℤ) where
  unfoldable pub add : ℤ → Option Ptr → Values → Cmd Plain (Option Values)
  add v none val = pure none
  add v (some p) val = λ s.
      (do
        insert (num_cmp (update val p v)) fuel garbage p
        root ← get_root
        print_dot (update val p v) left_field right_field fuel root
        pure (some (update val p v)))
        (zeroed p s)

  unfoldable pub remove : ℤ → Values → Cmd Plain Values
  remove v val = do
    n ← find (num_cmp (update val dummy v)) fuel dummy
    if n == null then pure (update val dummy v) else do
      delete fuel n
      free n
      root ← get_root
      print_dot (update val dummy v) left_field right_field fuel root
      pure (update val dummy v)

-- the exit, or the statements after the second prompt
abbrev pub final : ℕ → Ending → Cmd Plain ℕ
final fuel exited = pure 1
final fuel (finished val rs) = do root ← get_root; preorder fuel free root; pure 0

-- `calloc` answers with a node that depends on the memory, or has none.
module _ (dummy : Ptr) (left_field right_field : Ptr → Ptr) (fuel : ℕ) (garbage : ℤ)
    (strtol : List ℕ → Conversion ℤ) (calloc : Store Plain → Option Ptr) where
  unfoldable pub add_loop : Values → List Reply → Cmd Plain Ending
  unfolding add
  add_loop val [] = pure (finished val [])
  add_loop val (failed eof ∷ rs) = pure (if eof then finished val rs else exited)
  add_loop val (got line eof ∷ rs) =
      let text = chomp line in
      let c = strtol text in
      if is_empty text
      then pure (finished val rs)
      else if not (eqb_ℤ c.errno (pos 0)) || not (at_nul c.rest)
      then add_loop val rs
      else λ s.
          (do
            result ← add dummy left_field right_field fuel garbage c.value (calloc s) val
            elim result [ none ↦ pure exited | some val' ↦ add_loop val' rs ])
            s

  -- A line that is refused has changed `dummy`.
  unfoldable pub remove_loop : Values → List Reply → Cmd Plain Ending
  unfolding remove
  remove_loop val [] = pure (finished val [])
  remove_loop val (failed eof ∷ rs) = pure (if eof then finished val rs else exited)
  remove_loop val (got line eof ∷ rs) =
      let text = chomp line in
      let c = strtol text in
      if is_empty text
      then pure (finished val rs)
      else if ltb_ℤ c.errno (pos 0) || not (at_nul c.rest)
      then remove_loop (update val dummy c.value) rs
      else do
        val' ← remove dummy left_field right_field fuel garbage c.value val
        remove_loop val' rs

  -- the exit, or the second prompt
  abbrev pub second : Ending → Cmd Plain ℕ
  second exited = pure 1
  second (finished val rs) = do ending ← remove_loop val rs; final fuel ending

  -- the exit status
  unfoldable pub main : Values → List Reply → Cmd Plain ℕ
  unfolding add_loop remove_loop
  main val replies = do set_root null; ending ← add_loop val replies; second ending
