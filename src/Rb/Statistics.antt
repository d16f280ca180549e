-- ===== src/Rb/Statistics.antt =====
-- `test` of rbtree.c, for one tree: the tree of random numbers, its height, and the heights of its nodes. The numbers
-- of `random` are an argument, and so are the addresses of the nodes in the array.
pub mod Climb
pub mod Filled
pub mod Measured
use dsa.Bst.{num_cmp}
use dsa.Numbers.{Values}
use dsa.Prelude.Int.{ℤ}
use dsa.Prelude.{ℕ, zero, suc, ◌+◌, false, if◌then◌else◌, update}
use dsa.Rb.Defs.{Red, init, is_nil, height}
use dsa.Rb.Insert.{insert}
use dsa.Store.{
  Ptr, null, out_of_fuel, Cmd, pure, ◌>>=◌, ◌>>◌, get_root, get_parent, set_parent, set_left,
  set_right, set_rest, increment,
}

-- from a node up to the root; `nh` counts the nodes, in an `int`
unfoldable pub climb : ℕ → (node : Ptr) → (nh : ℕ) → Cmd Red ℕ
climb zero node nh = λ _. out_of_fuel
climb (suc k) node nh = do
  empty ← is_nil node
  if empty then pure nh else do nh' ← increment nh; p ← get_parent node; climb k p nh'

module _ (place : ℕ → Ptr) where
  -- `memset` of the array
  unfoldable pub clear : (rounds j : ℕ) → Cmd Red (Unit {0})
  clear zero j = pure tt
  clear (suc k) j = do
    set_parent (place j) null
    set_left (place j) null
    set_right (place j) null
    set_rest (place j) false
    clear k (j + 1)

  unfoldable pub climb_all : (fuel rounds j nh : ℕ) → Cmd Red ℕ
  climb_all fuel zero j nh = pure nh
  climb_all fuel (suc k) j nh = do
    nh' ← climb fuel (place j) nh
    j' ← increment j
    climb_all fuel k j' nh'

  module _ (nil : Ptr) (fuel : ℕ) (garbage : ℤ) (random : ℕ → ℤ) where
    -- the nodes from the `j`-th on get their numbers, and are put into the tree
    unfoldable pub fill : (rounds j : ℕ) → Values → Cmd Red Values
    fill zero j val = pure val
    fill (suc k) j val = do
      insert nil (num_cmp (update val (place j) (random j))) fuel garbage (place j)
      j' ← increment j
      fill k j' (update val (place j) (random j))

    -- the height of the tree, and the sum of the heights of its nodes
    unfoldable pub one_tree : (num_nodes : ℕ) → Values → Cmd Red (ℕ × ℕ)
    unfolding clear fill climb_all
    one_tree num_nodes val = do
      clear num_nodes 0
      init nil
      val' ← fill num_nodes 0 val
      root ← get_root
      h ← height fuel root
      nh ← climb_all fuel num_nodes 0 0
      pure (h, nh)
