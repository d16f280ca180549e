-- ===== src/Tree.antt =====
-- The trees that the pointers of a store stand for, and trees with a hole: the way from the root
-- down to a subtree, with the siblings that it passes.
pub mod Shape
pub mod Distinct
pub mod Rep
pub mod Owned
pub mod Levels
pub mod Array
pub mod Printed
pub mod Frame
pub mod Hook
pub mod Graft
pub mod Walk
pub mod Search
pub mod Lowest
pub mod Hand
pub mod Locate
pub mod Visit
use dsa.Prelude.{ℕ, ◌+◌, ◌==◌, to_nat, if◌then◌else◌, ltb, List, [], ◌∷◌, ◌++◌}
use dsa.Store.{Ptr}

pub data Tree (T : Type 0) : Type 0 where
  leaf : Tree T
  node : (l : Tree T) (a : Ptr) (c : T) (r : Tree T) → Tree T

-- `on_left a c r up`: the hole is the left child of `a`, whose right child is `r`.
pub data Hole (T : Type 0) : Type 0 where
  top : Hole T
  on_left : (a : Ptr) (c : T) (r : Tree T) (up : Hole T) → Hole T
  on_right : (l : Tree T) (a : Ptr) (c : T) (up : Hole T) → Hole T

module _ {T : Type 0} where
  -- The pointer to a tree, where `nil` stands for the empty one, and to the node above a hole.
  abbrev pub ptr : Ptr → Tree T → Ptr
  ptr nil leaf = nil
  ptr nil (node l a c r) = a

  abbrev pub above : Ptr → Hole T → Ptr
  above nil top = nil
  above nil (on_left a c r up) = a
  above nil (on_right l a c up) = a

  abbrev pub plug : Hole T → Tree T → Tree T
  plug top t = t
  plug (on_left a c r up) t = plug up (node t a c r)
  plug (on_right l a c up) t = plug up (node l a c t)

  -- How often the node at `x` occurs.
  abbrev pub count : Ptr → Tree T → ℕ
  count x leaf = 0
  count x (node l a c r) = to_nat (x == a) + count x l + count x r

  abbrev pub count_hole : Ptr → Hole T → ℕ
  count_hole x top = 0
  count_hole x (on_left a c r up) = to_nat (x == a) + count x r + count_hole x up
  count_hole x (on_right l a c up) = to_nat (x == a) + count x l + count_hole x up

  -- The nodes in order, and those before and after a hole.
  abbrev pub inorder : Tree T → List Ptr
  inorder leaf = []
  inorder (node l a c r) = inorder l ++ (a ∷ inorder r)

  abbrev pub before : Hole T → List Ptr
  before top = []
  before (on_left a c r up) = before up
  before (on_right l a c up) = before up ++ (inorder l ++ (a ∷ []))

  abbrev pub after : Hole T → List Ptr
  after top = []
  after (on_left a c r up) = a ∷ (inorder r ++ after up)
  after (on_right l a c up) = after up

  abbrev pub preorder : Tree T → List Ptr
  preorder leaf = []
  preorder (node l a c r) = a ∷ (preorder l ++ preorder r)

  abbrev pub size : Tree T → ℕ
  size leaf = 0
  size (node l a c r) = 1 + size l + size r

  -- the number of nodes on the longest way down
  abbrev pub height : Tree T → ℕ
  height leaf = 0
  height (node l a c r) = 1 + (if ltb (height r) (height l) then height l else height r)
