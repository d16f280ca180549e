-- ===== src/Tests/Session.antt =====
-- `main` of rbtree.c: the number 5 is put into the empty tree. The sentinel stands at the address 10, the number to
-- look for at 11, and the node at 1.
use dsa.Bst.{num_cmp}
use dsa.Prelude.Int.{pos}
use dsa.Prelude.{[], ◌≡◌, refl, Option, some, none, true, ◌==◌, if◌then◌else◌, ◌+◌, arith}
use dsa.Rb.Defs.{preorder, Red, init, replace, rotate, find}
use dsa.Rb.Delete.{delete}
use dsa.Rb.Insert.{insert, link, repair_side, repair, repair_loop}
use dsa.Rb.Session.Kept.{IsSession, Kept, command-Kept}
use dsa.Rb.Session.Reach.{Reaches, started, commanded, Reached, Reaches-Reached, Reaches-frees}
use dsa.Rb.Session.{insert_number, delete_number, command, bag_step}
use dsa.Numbers.{Values}
use dsa.Tree.Owned.{IsFresh}
use dsa.Store.Returns.{Returns}
use dsa.Store.{
  Ptr, Store, Run, fault, out_of_fuel, ok, live, get_parent, get_left, get_right, get_rest,
  set_parent, set_left, set_right, set_rest, free,
}
use dsa.Tests.RbTree.{memory, three, three-IsRbTree}

-- the addresses of the fields of a node
abbrev left_at : Ptr → Ptr
left_at p = p + 8

abbrev right_at : Ptr → Ptr
right_at p = p + 16

abbrev values : Values
values p = pos 0

-- the stack of `main`, with nothing in it yet
abbrev stack : Store Red
stack = record {
  root = 0;
  allocated = λ p. if p == 10 then true else p == 11;
  parent = λ p. 7;
  left = λ p. 7;
  right = λ p. 7;
  rest = λ p. true;
  printed = [];
}

abbrev store_of : {A : Type 0} → Run Red A → Store Red
store_of (ok a s) = s
store_of fault = stack
store_of out_of_fuel = stack

abbrev values_of : Run Red (Option Values) → Values
values_of (ok (some v) s) = v
values_of (ok none s) = values
values_of fault = values
values_of out_of_fuel = values

all_code : Unit {0}
unfolding init live get_parent get_left get_right get_rest set_parent set_left set_right set_rest
    insert link repair_side repair repair_loop rotate replace num_cmp command find delete free
all_code = tt

abbrev empty : Store Red
empty = store_of (init 10 stack)

empty-reached : Reaches stack 10 11 left_at right_at 9 (pos 0) values empty 0 (λ w. 0)
unfolding init live set_parent set_left set_right set_rest
empty-reached = started values refl refl refl

one-IsFresh : IsFresh empty 1
unfolding init live set_parent set_left set_right set_rest
one-IsFresh = record { inner = λ e. absurd (omega (arith, e)); spare = refl }

-- the state after the command `i` with the number 5
abbrev five : Run Red (Option Values)
five = command 10 11 left_at right_at 9 (pos 0) (insert_number (pos 5)) (some 1) values empty

five-reached :
    Reaches stack 10 11 left_at right_at 9
      (pos 0)
      (values_of five)
      (store_of five)
      1
      (bag_step (insert_number (pos 5)) (λ w. 0))
unfolding init live get_parent get_left get_right get_rest set_parent set_left set_right set_rest
    insert link repair_side repair repair_loop rotate replace num_cmp command find delete free
five-reached = commanded (insert_number (pos 5)) 1 empty-reached one-IsFresh (omega arith) refl

Reaches-Reached_example :
    Reached stack 10 11
      (values_of five)
      (store_of five)
      1
      (bag_step (insert_number (pos 5)) (λ w. 0))
Reaches-Reached_example =
    Reaches-Reached stack 10 11 left_at right_at 9 (pos 0) (values_of five) (store_of five) 1
      (bag_step (insert_number (pos 5)) (λ w. 0)) five-reached

-- a session with the tree of three nodes, where the number to look for stands at the address 9
three-IsSession : IsSession 10 9 pos memory three
three-IsSession = record { valid = three-IsRbTree; apart = refl; taken = refl }

twelve-IsFresh : IsFresh memory 12
twelve-IsFresh = record { inner = λ e. absurd (omega (arith, e)); spare = refl }

command-Kept_example :
    Returns
      (Kept 10 9 left_at right_at 9
        (pos 7)
        pos
        memory
        three
        three-IsSession
        (delete_number (pos 2)))
      (command 10 9 left_at right_at 9 (pos 7) (delete_number (pos 2)) (some 12) pos memory)
command-Kept_example =
    command-Kept 10 9 left_at right_at 9 (pos 7) pos memory three three-IsSession
      (delete_number (pos 2)) 12 twelve-IsFresh (omega arith)

Reaches-frees_example :
    Returns
      (λ _ s'. (x : Ptr) → s'.allocated x ≡ stack.allocated x)
      (preorder 9 free (store_of five).root (store_of five))
Reaches-frees_example =
    Reaches-frees stack 10 11 left_at right_at 9 (pos 0) (values_of five) (store_of five) 1
      (bag_step (insert_number (pos 5)) (λ w. 0)) five-reached (omega arith)
