-- ===== src/Rb/Main/Ends.antt =====
-- `main` of rbtree.c ends: on any input it returns, and has freed the nodes it allocated, or exits for a failure.
use dsa.Rb.Main.Rounds.{Done, main_loop-Done}
use dsa.Console.Ending.{EndsWell}
use dsa.Console.{Reply, Conversion}
use dsa.Numbers.{Values}
use dsa.Prelude.Int.{ℤ}
use dsa.Prelude.{ℕ, ◌<◌, ◌≡◌, inl, inr, refl, Bool, true, Option, List, length, arith}
use dsa.Rb.Defs.{Red}
use dsa.Rb.Main.{Ending, finished, exited, after_loop, main}
use dsa.Rb.Preorder.{preorder-frees-Owned}
use dsa.Rb.Sentinel.{init-IsTree}
use dsa.Rb.Session.Reach.{start-Reached}
use dsa.Store.Returns.{Returns, returns, bind, ran}
use dsa.Store.{Ptr, Store, live}
use dsa.Tree.Owned.{IsCalloc}

module _ (nil dummy : Ptr) (left_field right_field : Ptr → Ptr) (fuel : ℕ) (garbage : ℤ)
    (strtol : List ℕ → Conversion ℤ) (calloc : Store Red → Option Ptr) (honest : IsCalloc calloc)
    (base : Ptr → Bool) where
  -- the statements after the loop
  ended :
      (rs : List Reply) (e : Ending) (s : Store Red)
      → Done nil dummy left_field right_field fuel garbage strtol calloc honest base rs e s
      → Returns (EndsWell calloc rs base) (after_loop fuel e s)
  ended rs finished s d =
      let held = d.session.valid.held in
      bind (preorder-frees-Owned nil fuel base s d.tree held.sentinel held.at d.owned d.small)
        λ _ s' q. returns (inl (refl, q))
  ended rs exited s d = elim d.cause [
    | inl h ↦ absurd (let e : exited ≡ finished = h in cc)
    | inr h ↦ returns (inr (refl, h))
  ]

-- `main` of rbtree.c on any input, with fuel for its lines and a `calloc` that answers with fresh nodes or none, returns without
-- a fault. Its status is 0, and the nodes that are allocated then are those of before; or its status is 1, and a line of the input
-- fails to be read or `calloc` has no node in the memory in which the program exits.
pub main-ends :
    (nil dummy : Ptr) (left_field right_field : Ptr → Ptr) (fuel : ℕ) (garbage : ℤ)
    (strtol : List ℕ → Conversion ℤ) (calloc : Store Red → Option Ptr) (s : Store Red)
    (val : Values) (rs : List Reply)
    → IsCalloc calloc
    → live s.allocated nil ≡ true
    → s.allocated dummy ≡ true
    → length rs < fuel
    → Returns
        (EndsWell calloc rs s.allocated)
        (main nil dummy left_field right_field fuel garbage strtol calloc fuel val rs s)
unfolding main
main-ends nil dummy left_field right_field fuel garbage strtol calloc s val rs honest there taken
      enough =
    let (_, s₁, run, _) = ran (init-IsTree nil s there) in
    let r = start-Reached s nil dummy left_field right_field fuel garbage s₁ val there taken run in
    rw run (
      bind
        (main_loop-Done nil dummy left_field right_field fuel garbage strtol calloc honest
          s.allocated fuel val rs s₁ enough
          (record {
            tree = r.tree;
            session = r.session;
            room = let i = r.small in omega arith;
            owned = r.owned;
          }))
        (ended nil dummy left_field right_field fuel garbage strtol calloc honest s.allocated rs))
