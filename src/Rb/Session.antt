-- ===== src/Rb/Session.antt =====
-- `main` of rbtree.c between its input and its output: a command, and the numbers that the tree holds.
pub mod Memory
pub mod Kept
pub mod Reach
use dsa.Bst.{num_cmp}
use dsa.Numbers.{Values}
use dsa.Prelude.Int.{ℤ, eqb_ℤ}
use dsa.Prelude.{
  ℕ, ◌+◌, ◌-◌, Bool, false, true, Option, none, some, ◌==◌, if◌then◌else◌, update, to_nat, List, [],
  ◌∷◌,
}
use dsa.Rb.Defs.{Red, find}
use dsa.Rb.Delete.{delete}
use dsa.Rb.Dot.{print_dot}
use dsa.Rb.Insert.{insert}
use dsa.Store.{Ptr, null, Store, Cmd, ok, pure, ◌>>=◌, ◌>>◌, get_root, free}

-- the line that `main` reads, with the number that `read_long` returns
pub data Command : Type 0 where
  insert_number delete_number : ℤ → Command
  print : Command

-- a node of zeros from `calloc`
abbrev pub zeroed : Ptr → Store Red → Store Red
zeroed p s = record s {
  allocated = update s.allocated p true;
  parent = update s.parent p null;
  left = update s.left p null;
  right = update s.right p null;
  rest = update s.rest p false;
}

-- One round of the loop of `main`. `calloc` is what `calloc` answers, and the result none is the exit when it has no
-- memory. `dummy` is the address of the `struct num` on the stack that holds the number to look for.
module _ (nil dummy : Ptr) (left_field right_field : Ptr → Ptr) (fuel : ℕ) (garbage : ℤ) where
  unfoldable pub command : Command → (calloc : Option Ptr) → Values → Cmd Red (Option Values)
  command (insert_number v) none val = pure none
  command (insert_number v) (some p) val = λ s.
      (do insert nil (num_cmp (update val p v)) fuel garbage p; pure (some (update val p v)))
        (zeroed p s)
  command (delete_number v) calloc val = do
    n ← find nil (num_cmp (update val dummy v)) fuel dummy
    if n == null
        then pure (some (update val dummy v))
        else do delete nil fuel n; free n; pure (some (update val dummy v))
  command print calloc val = do
    root ← get_root
    print_dot val left_field right_field fuel root
    pure (some val)

-- the numbers as a bag: how often it holds each
abbrev pub bag_step : Command → (ℤ → ℕ) → ℤ → ℕ
bag_step (insert_number v) bag w = bag w + to_nat (eqb_ℤ v w)
bag_step (delete_number v) bag w = bag w - to_nat (eqb_ℤ v w)
bag_step print bag w = bag w
