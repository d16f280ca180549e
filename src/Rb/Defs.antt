-- ===== src/Rb/Defs.antt =====
-- rbtree.c: the sentinel, the rotations, search and walks. The parameter `nil` is the address of the
-- sentinel node inside `struct rb_tree`. The two rotations and the two halves of the loops, which the
-- source writes out with left and right exchanged, are one definition over a side.
use dsa.Prelude.Int.{ℤ, pos, ltb_ℤ, eqb_ℤ}
use dsa.Prelude.{ℕ, zero, suc, ◌+◌, Bool, false, ◌==◌, if◌then◌else◌, ltb}
use dsa.Store.{
  Ptr, null, out_of_fuel, Cmd, pure, ◌>>=◌, ◌>>◌, get_root, set_root, get_parent, get_left,
  get_right, set_parent, set_left, set_right, set_rest,
}

-- The field `red` holds 0 or 1 and is only tested against 0.
abbrev pub Red : Type 0
Red = Bool

pub data Side : Type 0 where
  left right : Side

abbrev pub other : Side → Side
other left = right
other right = left

abbrev pub get_child : Side → Ptr → Cmd Red Ptr
get_child left = get_left
get_child right = get_right

abbrev pub set_child : Side → Ptr → Ptr → Cmd Red (Unit {0})
set_child left = set_left
set_child right = set_right

-- `memset` and the root
unfoldable pub init : Ptr → Cmd Red (Unit {0})
init nil = do
  set_root null
  set_parent nil null
  set_left nil null
  set_right nil null
  set_rest nil false
  set_root nil

-- The macro `RB_NIL`.
unfoldable pub is_nil : Ptr → Cmd Red Bool
is_nil n = do l ← get_left n; pure (l == null)

-- These statements are `rb_replace`, and stand in both rotations too.
unfoldable pub replace : (what by : Ptr) → Cmd Red (Unit {0})
replace what by = do
  root ← get_root
  if what == root then set_root by else do
    p ← get_parent what
    l ← get_left p
    if what == l then set_left p by else set_right p by
  q ← get_parent what
  set_parent by q

-- `rotate left` is `rb_rotate_left`, `rotate right` is `rb_rotate_right`.
unfoldable pub rotate : Side → Ptr → Cmd Red (Unit {0})
rotate d node = do
  r ← get_child (other d) node
  x ← get_child d r
  set_child (other d) node x
  y ← get_child d r
  set_parent y node
  replace node r
  set_child d r node
  set_parent node r

module _ (nil : Ptr) (cmp : Ptr → Ptr → ℤ) where
  unfoldable pub find_loop : ℕ → (node n : Ptr) → Cmd Red Ptr
  find_loop zero node n = λ _. out_of_fuel
  find_loop (suc k) node n =
      if n == nil then pure null else if eqb_ℤ (cmp node n) (pos 0) then pure n else do
        n' ← if ltb_ℤ (cmp node n) (pos 0) then get_left n else get_right n
        find_loop k node n'

  unfoldable pub find : ℕ → Ptr → Cmd Red Ptr
  unfolding find_loop
  find fuel node = do n ← get_root; find_loop fuel node n

unfoldable pub preorder : ℕ → (Ptr → Cmd Red (Unit {0})) → Ptr → Cmd Red (Unit {0})
unfolding is_nil
preorder zero fn node = λ _. out_of_fuel
preorder (suc k) fn node = do
  empty ← is_nil node
  if empty then pure tt else do
    l ← get_left node
    r ← get_right node
    fn node
    no_left ← is_nil l
    if no_left then pure tt else preorder k fn l
    no_right ← is_nil r
    if no_right then pure tt else preorder k fn r

-- Heights are bounded by the number of nodes, far below the range of `int`.
unfoldable pub height : ℕ → Ptr → Cmd Red ℕ
unfolding is_nil
height zero node = λ _. out_of_fuel
height (suc k) node = do
  empty ← is_nil node
  if empty then pure 0 else do
    l ← get_left node
    m ← height k l
    r ← get_right node
    n ← height k r
    pure (if ltb (1 + n) (1 + m) then 1 + m else 1 + n)
