-- ===== src/Bst.antt =====
-- bst.c: the functions on a tree of `struct bst_node`.
pub mod Shift
pub mod Insert
pub mod Find
pub mod Delete
pub mod Preorder
pub mod Height
pub mod Compare
pub mod Dot
pub mod Main
pub mod Statistics
pub mod Arguments
use dsa.Prelude.{ℕ, zero, suc, ◌+◌, Bool, true, false, ◌==◌, if◌then◌else◌, List, [], ◌∷◌, ltb}
use dsa.Prelude.Int.{ℤ, pos, negsuc, ltb_ℤ, eqb_ℤ}
use dsa.Store.{
  Ptr, null, Store, Run, out_of_fuel, Cmd, pure, ◌>>=◌, ◌>>◌, get_root, set_root, get_parent,
  get_left, get_right, set_parent, set_left, set_right,
}

-- A node has no field beside its pointers.
abbrev pub Plain : Type 0
Plain = Unit {0}

-- The statements after the walk of `bst_insert`.
link : (node parent : Ptr) → ℤ → Cmd Plain (Unit {0})
link node parent ret = do
  set_parent node parent
  if parent == null
      then set_root node
      else if ltb_ℤ ret (pos 0)
      then set_left parent node
      else set_right parent node

module _ (cmp : Ptr → Ptr → ℤ) where
  -- The walk down to a free place: its parent, and the last result of the comparison.
  insert_loop : ℕ → (node n parent : Ptr) → ℤ → Cmd Plain (Ptr × ℤ)
  insert_loop zero node n parent ret = λ _. out_of_fuel
  insert_loop (suc k) node n parent ret = if n == null then pure (parent, ret) else do
    n' ← if ltb_ℤ (cmp node n) (pos 0) then get_left n else get_right n
    insert_loop k node n' n (cmp node n)

  -- `garbage` is the value of `ret` before the first comparison.
  unfoldable pub insert : ℕ → ℤ → Ptr → Cmd Plain (Unit {0})
  unfolding insert_loop link
  insert fuel garbage node = do
    n ← get_root
    (parent, ret) ← insert_loop fuel node n null garbage
    link node parent ret

  find_loop : ℕ → (node n : Ptr) → Cmd Plain Ptr
  find_loop zero node n = λ _. out_of_fuel
  find_loop (suc k) node n =
      if n == null then pure n else if eqb_ℤ (cmp node n) (pos 0) then pure n else do
        n' ← if ltb_ℤ (cmp node n) (pos 0) then get_left n else get_right n
        find_loop k node n'

  unfoldable pub find : ℕ → Ptr → Cmd Plain Ptr
  unfolding find_loop
  find fuel node = do n ← get_root; find_loop fuel node n

unfoldable pub shift : (what by : Ptr) → Cmd Plain (Unit {0})
shift what by = do
  p ← get_parent what
  if p == null
      then set_root by
      else do l ← get_left p; if l == what then set_left p by else set_right p by
  if by == null then pure tt else set_parent by p

-- Down to the node that has no left child.
pub lowest_loop : ℕ → Ptr → Cmd Plain Ptr
lowest_loop zero next = λ _. out_of_fuel
lowest_loop (suc k) next = do l ← get_left next; if l == null then pure next else lowest_loop k l

-- `next` leaves its place, and takes over the right child of `node`.
pub detach : (node next : Ptr) → Cmd Plain (Unit {0})
detach node next = do
  n ← get_right next
  shift next n
  r ← get_right node
  set_right next r
  r' ← get_right node
  set_parent r' next

-- `next` takes the place of `node` and its left child.
pub replace : (node next : Ptr) → Cmd Plain (Unit {0})
replace node next = do
  shift node next
  l ← get_left node
  set_left next l
  l' ← get_left node
  set_parent l' next

unfoldable pub delete : ℕ → Ptr → Cmd Plain (Unit {0})
unfolding lowest_loop detach replace
delete fuel node = do
  l ← get_left node
  if l == null then (do r ← get_right node; shift node r) else do
    r ← get_right node
    if r == null then (do l' ← get_left node; shift node l') else do
      r' ← get_right node
      next ← lowest_loop fuel r'
      r'' ← get_right node
      if next == r'' then pure tt else detach node next
      replace node next

-- `fn` may change the node that it is given, as `free` does.
unfoldable pub preorder : ℕ → (Ptr → Cmd Plain (Unit {0})) → Ptr → Cmd Plain (Unit {0})
preorder zero fn node = λ _. out_of_fuel
preorder (suc k) fn node = if node == null then pure tt else do
  left ← get_left node
  right ← get_right node
  fn node
  preorder k fn left
  preorder k fn right

-- `h` counts nodes on one way down, which memory bounds far below the range of `int`.
height_from : ℕ → Ptr → ℕ → Cmd Plain ℕ
height_from zero node h = λ _. out_of_fuel
height_from (suc k) node h = if node == null then pure h else do
  a ← get_left node
  l ← if a == null then pure (h + 1) else height_from k a (h + 1)
  b ← get_right node
  r ← if b == null then pure (h + 1) else height_from k b (h + 1)
  pure (if ltb r l then l else r)

unfoldable pub height : ℕ → Ptr → Cmd Plain ℕ
unfolding height_from
height fuel node = height_from fuel node 0

-- `val` is the number in the `struct num` around a node.
unfoldable pub num_cmp : (Ptr → ℤ) → Ptr → Ptr → ℤ
num_cmp val new old =
    if ltb_ℤ (val new) (val old)
    then negsuc 0
    else if eqb_ℤ (val new) (val old)
    then pos 0
    else pos 1
