-- ===== src/Rb/State.antt =====
-- The state of rbtree.c: a sorted red-black tree in a store, beside the sentinel.
use dsa.Order.{IsSorted}
use dsa.Prelude.Int.{ℤ}
use dsa.Prelude.{ℕ, ◌<◌, false, subst, sym, arith}
use dsa.Rb.Change.{Held, Change, paint}
use dsa.Rb.Colours.{IsRb, IsRedBlack, paint_root}
use dsa.Rb.Defs.{Red, left}
use dsa.Store.Returns.{Returns, mono}
use dsa.Store.{Ptr, Store, set_rest}
use dsa.Tree.{Tree, leaf, node, top, inorder, count}

pub record IsRbTree (cmp : Ptr → Ptr → ℤ) (nil : Ptr) (s : Store Red) (t : Tree Red) : Type 0 where
  pub held : Held nil s top t
  pub colours : IsRedBlack t
  pub sorted : IsSorted cmp (inorder t)

-- `tree->root->red = 0` on a tree that is not empty
pub record Blackened (nil : Ptr) (s : Store Red) (t : Tree Red) (s' : Store Red) : Type 0 where
  pub tree : Tree Red
  pub change : Change nil s top t tree s'
  pub colours : IsRedBlack tree

pub blacken_root :
    (nil : Ptr) (s : Store Red) (t : Tree Red) (n : ℕ) (x : Ptr)
    → Held nil s top t
    → IsRb n t
    → 0 < count x t
    → Returns (λ _. Blackened nil s t) (set_rest s.root false s)
blacken_root nil s leaf n x held rb some = absurd (omega arith)
blacken_root nil s (node l a c r) n x held rb some =
    subst (λ p. Returns (λ _. Blackened nil s (node l a c r)) (set_rest p false s)) (sym held.at.up)
      (mono (paint s top left l a c false r held)
        λ _ s' q. record { tree = node l a false r; change = q; colours = paint_root n l a c r rb })
