-- ===== src/Tree/Lowest.antt =====
-- The lowest node of a non-empty tree, which comes as its left subtree, root and right subtree:
-- its place, its right subtree, and the tree without it.
use dsa.Prelude.{◌+◌, ◌≡◌, refl, ap, ◌==◌, to_nat, ◌∷◌, ◌++◌, arith}
use dsa.Store.{Ptr, Store}
use dsa.Tree.Rep.{IsAt}
use dsa.Tree.Walk.{go_left, up_left}
use dsa.Tree.{Tree, leaf, node, Hole, on_left, inorder, count, count_hole}

module _ {T : Type 0} where
  abbrev pub low_ptr : Tree T → Ptr → Ptr
  low_ptr leaf a = a
  low_ptr (node l b d m) a = low_ptr l b

  abbrev pub low_rest : Tree T → T → T
  low_rest leaf c = c
  low_rest (node l b d m) c = low_rest l d

  abbrev pub low_right : Tree T → Tree T → Tree T
  low_right leaf r = r
  low_right (node l b d m) r = low_right l m

  abbrev pub low_hole : Hole T → Tree T → Ptr → T → Tree T → Hole T
  low_hole h leaf a c r = h
  low_hole h (node l b d m) a c r = low_hole (on_left a c r h) l b d m

  abbrev pub drop_low : Tree T → Ptr → T → Tree T → Tree T
  drop_low leaf a c r = r
  drop_low (node l b d m) a c r = node (drop_low l b d m) a c r

  pub inorder-low :
      (l : Tree T) (a : Ptr) (c : T) (r : Tree T)
      → inorder (node l a c r) ≡ low_ptr l a ∷ inorder (drop_low l a c r)
  inorder-low leaf a c r = refl
  inorder-low (node l b d m) a c r = ap (λ xs. xs ++ (a ∷ inorder r)) (inorder-low l b d m)

  pub count-low :
      (x : Ptr) (l : Tree T) (a : Ptr) (c : T) (r : Tree T)
      → count x (node l a c r) ≡ to_nat (x == low_ptr l a) + count x (drop_low l a c r)
  count-low x leaf a c r = omega arith
  count-low x (node l b d m) a c r = omega (arith, count-low x l b d m)

  pub count_hole-low :
      (x : Ptr) (h : Hole T) (l : Tree T) (a : Ptr) (c : T) (r : Tree T)
      → count_hole x (low_hole h l a c r) + count x (low_right l r)
        ≡ count_hole x h + count x (drop_low l a c r)
  count_hole-low x h leaf a c r = omega arith
  count_hole-low x h (node l b d m) a c r =
      omega (arith, count_hole-low x (on_left a c r h) l b d m)

module _ {T : Type 0} (nil : Ptr) {s : Store T} where
  pub IsAt-low :
      (h : Hole T) (l : Tree T) (a : Ptr) (c : T) (r : Tree T)
      → IsAt nil s h (node l a c r)
      → IsAt nil s (low_hole h l a c r) (node leaf (low_ptr l a) (low_rest l c) (low_right l r))
  IsAt-low h leaf a c r at = at
  IsAt-low h (node l b d m) a c r at =
      IsAt-low (on_left a c r h) l b d m (go_left nil h (node l b d m) a c r at)

  -- the lowest node's right subtree in its place
  pub IsAt-drop_low :
      (h : Hole T) (l : Tree T) (a : Ptr) (c : T) (r : Tree T)
      → IsAt nil s (low_hole h l a c r) (low_right l r)
      → IsAt nil s h (drop_low l a c r)
  IsAt-drop_low h leaf a c r at = at
  IsAt-drop_low h (node l b d m) a c r at =
      up_left nil h (drop_low l b d m) a c r (IsAt-drop_low (on_left a c r h) l b d m at)
