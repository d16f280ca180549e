-- ===== src/Tree/Shape.antt =====
-- Plugging a tree into a hole: its nodes, and their order.
use dsa.Prelude.{
  ◌+◌, ◌≤◌, ◌≡◌, refl, ◌∷◌, ◌++◌, append_assoc, append-nil, length, length-append, arith,
}
use dsa.Store.{Ptr}
use dsa.Tree.{
  Tree, leaf, node, Hole, top, on_left, on_right, plug, count, count_hole, inorder, before, after,
  size,
}

module _ {T : Type 0} where
  pub count-plug :
      (x : Ptr) (h : Hole T) (t : Tree T) → count x (plug h t) ≡ count_hole x h + count x t
  count-plug x top t = omega arith
  count-plug x (on_left a c r up) t = omega (arith, count-plug x up (node t a c r))
  count-plug x (on_right l a c up) t = omega (arith, count-plug x up (node l a c t))

  pub inorder-plug :
      (h : Hole T) (t : Tree T) → inorder (plug h t) ≡ before h ++ (inorder t ++ after h)
  inorder-plug top t = simp append-nil
  inorder-plug (on_left a c r up) t = simp (inorder-plug up (node t a c r), append_assoc)
  inorder-plug (on_right l a c up) t = simp (inorder-plug up (node l a c t), append_assoc)

  pub size-le-plug : (h : Hole T) (t : Tree T) → size t ≤ size (plug h t)
  size-le-plug top t = omega arith
  size-le-plug (on_left a c r up) t = omega (arith, size-le-plug up (node t a c r))
  size-le-plug (on_right l a c up) t = omega (arith, size-le-plug up (node l a c t))

  pub length-inorder : (t : Tree T) → length (inorder t) ≡ size t
  length-inorder leaf = refl
  length-inorder (node l a c r) =
      omega (arith, length-append (inorder l) (a ∷ inorder r), length-inorder l, length-inorder r)
