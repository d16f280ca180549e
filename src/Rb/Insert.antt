-- ===== src/Rb/Insert.antt =====
-- `rb_insert`: the walk down, the link, and the loop that restores the colours.
pub mod Repair
pub mod Round
pub mod Loop
pub mod Walk
pub mod Link
pub mod Whole
pub mod Lookup
use dsa.Prelude.Int.{ℤ, pos, ltb_ℤ}
use dsa.Prelude.{ℕ, zero, suc, true, false, ◌==◌, if◌then◌else◌}
use dsa.Store.{
  Ptr, out_of_fuel, Cmd, pure, ◌>>=◌, ◌>>◌, get_root, set_root, get_parent, get_left, get_right,
  get_rest, set_parent, set_left, set_right, set_rest,
}
use dsa.Rb.Defs.{Red, Side, left, right, other, get_child, rotate}

module _ (nil : Ptr) (cmp : Ptr → Ptr → ℤ) where
  pub insert_loop : ℕ → (node n parent : Ptr) → ℤ → Cmd Red (Ptr × ℤ)
  insert_loop zero node n parent ret = λ _. out_of_fuel
  insert_loop (suc k) node n parent ret = if n == nil then pure (parent, ret) else do
    n' ← if ltb_ℤ (cmp node n) (pos 0) then get_left n else get_right n
    insert_loop k node n' n (cmp node n)

-- The statements between the two loops.
unfoldable pub link : Ptr → (node parent : Ptr) → ℤ → Cmd Red (Unit {0})
link nil node parent ret = do
  if parent == nil
      then set_root node
      else if ltb_ℤ ret (pos 0)
      then set_left parent node
      else set_right parent node
  set_parent node parent
  set_left node nil
  set_right node nil
  set_rest node true

-- One round of the second loop, where `parent` is the child of `grand` on the side `d`; the result
-- is the new current node.
unfoldable pub repair_side : Side → (node parent grand : Ptr) → Cmd Red Ptr
repair_side d node parent grand = do
  uncle ← get_child (other d) grand
  red ← get_rest uncle
  if red
      then (do set_rest parent false; set_rest uncle false; set_rest grand true; pure grand)
      else (do
        inner ← get_child (other d) parent
        node' ← if node == inner then (do rotate d parent; pure parent) else pure node
        p ← get_parent node'
        set_rest p false
        set_rest grand true
        rotate (other d) grand
        pure node')

unfoldable pub repair : Ptr → Cmd Red Ptr
unfolding repair_side
repair node = do
  parent ← get_parent node
  grand ← get_parent parent
  l ← get_left grand
  if parent == l then repair_side left node parent grand else repair_side right node parent grand

unfoldable pub repair_loop : ℕ → Ptr → Cmd Red (Unit {0})
unfolding repair
repair_loop zero node = λ _. out_of_fuel
repair_loop (suc k) node = do
  p ← get_parent node
  red ← get_rest p
  if red then (do node' ← repair node; repair_loop k node') else pure tt

-- `garbage` is the value of `ret` before the first comparison.
unfoldable pub insert : Ptr → (Ptr → Ptr → ℤ) → ℕ → ℤ → Ptr → Cmd Red (Unit {0})
unfolding insert_loop link repair_loop
insert nil cmp fuel garbage node = do
  n ← get_root
  (parent, ret) ← insert_loop nil cmp fuel node n nil garbage
  link nil node parent ret
  repair_loop fuel node
  root ← get_root
  set_rest root false
