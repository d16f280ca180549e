-- ===== src/Rb/Delete.antt =====
-- `rb_delete`: taking the node out, and the loop that moves the extra black up.
pub mod Close
pub mod Round
pub mod Black
pub mod Sibling
pub mod Loop
pub mod Seat
pub mod Unlinked
pub mod Take
pub mod Part
pub mod Single
pub mod Unlink
pub mod Whole
use dsa.Prelude.{ℕ, zero, suc, Bool, true, false, not, ◌==◌, if◌then◌else◌}
use dsa.Store.{
  Ptr, out_of_fuel, Cmd, pure, ◌>>=◌, ◌>>◌, get_root, get_parent, get_left, get_right, get_rest,
  set_parent, set_left, set_right, set_rest,
}
use dsa.Rb.Defs.{Red, Side, left, right, other, get_child, replace, rotate}

module _ (nil : Ptr) where
  unfoldable pub lowest_loop : ℕ → Ptr → Cmd Red Ptr
  lowest_loop zero next = λ _. out_of_fuel
  lowest_loop (suc k) next = do l ← get_left next; if l == nil then pure next else lowest_loop k l

  -- a node with two children: its successor `next` takes its place and colour
  unfoldable pub succeed : (node next : Ptr) → Cmd Red (Bool × Ptr)
  unfolding replace
  succeed node next = do
    orig_red ← get_rest next
    extra ← get_right next
    r ← get_right node
    if next == r then set_parent extra next else do
      n ← get_right next
      replace next n
      r' ← get_right node
      set_right next r'
      r'' ← get_right node
      set_parent r'' next
    replace node next
    l ← get_left node
    set_left next l
    l' ← get_left node
    set_parent l' next
    red ← get_rest node
    set_rest next red
    pure (orig_red, extra)

  -- the statements before the loop: the colour that was taken out, and who carries the extra black
  unfoldable pub unlink : ℕ → Ptr → Cmd Red (Bool × Ptr)
  unfolding lowest_loop succeed
  unlink fuel node = do
    orig_red ← get_rest node
    l ← get_left node
    if l == nil
        then (do extra ← get_right node; r ← get_right node; replace node r; pure (orig_red, extra))
        else (do
          r ← get_right node
          if r == nil
              then (do
                extra ← get_left node
                l' ← get_left node
                replace node l'
                pure (orig_red, extra))
              else (do r' ← get_right node; next ← lowest_loop fuel r'; succeed node next))

-- A red sibling is made black by a rotation; the result is the sibling.
unfoldable pub blacken : Side → (parent sibling : Ptr) → Cmd Red Ptr
blacken d parent sibling = do
  red ← get_rest sibling
  if red
      then (do
        set_rest sibling false
        set_rest parent true
        rotate d parent
        get_child (other d) parent)
      else pure sibling

-- The sibling's inner child is red and the outer one black: a rotation exchanges them.
unfoldable pub turn_out : Side → (parent sibling : Ptr) → Cmd Red Ptr
turn_out d parent sibling = do
  outer ← get_child (other d) sibling
  red ← get_rest outer
  if red then pure sibling else do
    set_rest sibling true
    inner ← get_child d sibling
    set_rest inner false
    rotate (other d) sibling
    get_child (other d) parent

-- One round of the loop, where `extra` is the child of `parent` on the side `d`: the new carrier of
-- the extra black, and whether the loop is left by `break`.
unfoldable pub lift_side : Side → (extra parent : Ptr) → Cmd Red (Ptr × Bool)
lift_side d extra parent = do
  first ← get_child (other d) parent
  sibling ← blacken d parent first
  l ← get_left sibling
  l_red ← get_rest l
  black ←
      if l_red then pure false else do r ← get_right sibling; r_red ← get_rest r; pure (not r_red)
  if black then (do set_rest sibling true; pure (parent, false)) else (do
    last ← turn_out d parent sibling
    red ← get_rest parent
    set_rest last red
    set_rest parent false
    outer ← get_child (other d) last
    set_rest outer false
    rotate d parent
    pure (extra, true))

unfoldable pub lift : Ptr → Cmd Red (Ptr × Bool)
unfolding lift_side
lift extra = do
  parent ← get_parent extra
  l ← get_left parent
  if extra == l then lift_side left extra parent else lift_side right extra parent

unfoldable pub lift_loop : ℕ → Ptr → Cmd Red Ptr
unfolding lift
lift_loop zero extra = λ _. out_of_fuel
lift_loop (suc k) extra = do
  root ← get_root
  if extra == root then pure extra else do
    red ← get_rest extra
    if red then pure extra else (do
      (extra', left_loop) ← lift extra
      if left_loop then pure extra' else lift_loop k extra')

unfoldable pub delete : Ptr → ℕ → Ptr → Cmd Red (Unit {0})
unfolding unlink lift_loop
delete nil fuel node = do
  (orig_red, extra) ← unlink nil fuel node
  if orig_red then pure tt else (do extra' ← lift_loop fuel extra; set_rest extra' false)
