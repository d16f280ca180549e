-- ===== src/Rb/Delete/Unlinked.antt =====
-- What the statements of `rb_delete` before its loop leave behind.
use dsa.Prelude.{ℕ, ◌+◌, ◌≡◌, ◌≢◌, ◌++◌, ap, sym, ◌∙◌, refl, Bool, false, ◌&&◌, arith}
use dsa.Rb.Change.{Held}
use dsa.Rb.Colours.{red_root, red_above, weight, Calm, IsRb, IsRbHole, IsRbHole-eq}
use dsa.Rb.Defs.{Red}
use dsa.Store.{Ptr, Store}
use dsa.Tree.Locate.{join}
use dsa.Tree.Lowest.{low_rest, low_right, low_hole, drop_low}
use dsa.Tree.Rep.{Same, IsAt}
use dsa.Tree.Shape.{inorder-plug}
use dsa.Tree.Walk.{go_left}
use dsa.Tree.{
  Tree, leaf, node, Hole, on_left, on_right, ptr, above, plug, count, count_hole, inorder, before,
  after,
}

-- The colours below and around the place of a node that is gone, where it had the colour `c`.
pub record IsVacant (c : Red) (h : Hole Red) (t : Tree Red) : Type 0 where
  pub height : ℕ
  pub hole : IsRbHole (weight c + height) h
  pub tree : IsRb height t
  pub calm : Calm c t
  pub calm_above : (c && red_above h) ≡ false

-- the node of the tree `node l a c r` in the hole `h` is gone; the result is the colour that is taken out and the
-- pointer to the tree that took its place
pub record Unlinked (nil : Ptr) (s : Store Red) (h : Hole Red) (l : Tree Red) (a : Ptr) (c : Red)
    (r : Tree Red) (z : Bool × Ptr) (s' : Store Red) : Type 0 where
  pub hole : Hole Red
  pub tree : Tree Red
  pub held : Held nil s' hole tree
  pub extra : z.1 ≡ ptr nil tree
  pub parent : s'.parent (ptr nil tree) ≡ above nil hole
  pub order : inorder (plug hole tree) ≡ inorder (plug h (join l r))
  pub allocated : s'.allocated ≡ s.allocated
  pub same : (x : Ptr) → count_hole x h + count x (node l a c r) ≡ 0 → x ≢ nil → Same s s' x
  pub colours :
      (n : ℕ)
      → IsRbHole n h
      → IsRb n (node l a c r)
      → (c && red_above h) ≡ false
      → IsVacant z.0 hole tree

pub plug-inorder :
    (h : Hole Red) (t t' : Tree Red)
    → inorder t ≡ inorder t'
    → inorder (plug h t) ≡ inorder (plug h t')
plug-inorder h t t' e =
    inorder-plug h t ∙ ap (λ xs. before h ++ (xs ++ after h)) e ∙ sym (inorder-plug h t')

pub plug-low :
    (h : Hole Red) (l : Tree Red) (a : Ptr) (c : Red) (r : Tree Red)
    → plug (low_hole h l a c r) (low_right l r) ≡ plug h (drop_low l a c r)
plug-low h leaf a c r = refl
plug-low h (node l b d m) a c r = plug-low (on_left a c r h) l b d m

-- down to the place of the lowest node that is gone
pub IsAt-low_right :
    (nil : Ptr) {s : Store Red} (h : Hole Red) (l : Tree Red) (a : Ptr) (c : Red) (r : Tree Red)
    → IsAt nil s h (drop_low l a c r)
    → IsAt nil s (low_hole h l a c r) (low_right l r)
IsAt-low_right nil h leaf a c r at = at
IsAt-low_right nil h (node l b d m) a c r at =
    IsAt-low_right nil (on_left a c r h) l b d m (go_left nil h (drop_low l b d m) a c r at)

pub Calm-swap : (c : Red) (t : Tree Red) → Calm c t → (red_root t && c) ≡ false
Calm-swap c t h = ground (arith, h)

pub low-IsVacant :
    (n : ℕ) (h : Hole Red) (l : Tree Red) (a : Ptr) (c : Red) (r : Tree Red)
    → IsRbHole n h
    → IsRb n (node l a c r)
    → (c && red_above h) ≡ false
    → IsVacant (low_rest l c) (low_hole h l a c r) (low_right l r)
low-IsVacant n h leaf a c r hole (m, e, calm_l, calm_r, rb_l, rb_r) calm = record {
  height = m;
  hole = IsRbHole-eq h e hole;
  tree = rb_r;
  calm = calm_r;
  calm_above = calm;
}
low-IsVacant n h (node l b d m) a c r hole (k, e, calm_l, calm_r, rb_l, rb_r) calm =
    low-IsVacant k (on_left a c r h) l b d m (calm_r, rb_r, calm, IsRbHole-eq h e hole) rb_l
      (Calm-swap c (node l b d m) calm_l)

-- the colours where a node with two children got the address and the right subtree of its successor
pub two-IsVacant :
    (h : Hole Red) (l : Tree Red) (a m : Ptr) (c : Red) (rl : Tree Red) (e : Ptr) (f : Red)
    (rr : Tree Red) (n : ℕ)
    → IsRbHole n h
    → IsRb n (node l a c (node rl e f rr))
    → (c && red_above h) ≡ false
    → IsVacant (low_rest rl f) (low_hole (on_right l m c h) rl e f rr) (low_right rl rr)
two-IsVacant h l a m c rl e f rr n hole (k, n≡, calm_l, calm_r, rb_l, rb_r) calm =
    low-IsVacant k (on_right l m c h) rl e f rr (calm_l, rb_l, calm, IsRbHole-eq h n≡ hole) rb_r
      (Calm-swap c (node rl e f rr) calm_r)

-- a lowest node that is below the root has a node above that does not depend on the hole
pub above-low :
    (nil : Ptr) (h h' : Hole Red) (l : Tree Red) (a : Ptr) (c : Red) (r : Tree Red) (b : Ptr)
    (d : Red) (m : Tree Red)
    → above nil (low_hole (on_left b d m h) l a c r)
      ≡ above nil (low_hole (on_left b d m h') l a c r)
above-low nil h h' leaf a c r b d m = refl
above-low nil h h' (node l b' d' m') a c r b d m =
    above-low nil (on_left b d m h) (on_left b d m h') l b' d' m' a c r
