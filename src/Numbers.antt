-- ===== src/Numbers.antt =====
-- The numbers in the nodes of a tree: the field `val` of the `struct num` around each node, in bst.c and rbtree.c.
pub mod Bag
pub mod Change
use dsa.Prelude.Int.{ℤ, eqb_ℤ}
use dsa.Prelude.{ℕ, ◌+◌, to_nat, List, [], ◌∷◌}
use dsa.Store.{Ptr}

abbrev pub Values : Type 0
Values = Ptr → ℤ

-- how many of the nodes have the number `w`
abbrev pub holds : Values → ℤ → List Ptr → ℕ
holds val w [] = 0
holds val w (x ∷ xs) = to_nat (eqb_ℤ (val x) w) + holds val w xs
