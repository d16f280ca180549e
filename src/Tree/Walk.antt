-- ===== src/Tree/Walk.antt =====
-- Moving the hole over a node, with the store unchanged.
use dsa.Prelude.{arith}
use dsa.Store.{Ptr, Store}
use dsa.Tree.{Tree, node, Hole, top, on_left, on_right, plug}
use dsa.Tree.Rep.{IsAt, IsTree}

module _ {T : Type 0} (nil : Ptr) {s : Store T} where
  pub go_left :
      (h : Hole T) (l : Tree T) (a : Ptr) (c : T) (r : Tree T)
      → IsAt nil s h (node l a c r)
      → IsAt nil s (on_left a c r h) l
  go_left h l a c r at = record {
    up = (at.down.0, at.down.2, at.up);
    down = at.down.1;
    once = λ x. omega (arith, at.once x);
    absent = omega (arith, at.absent);
  }

  pub go_right :
      (h : Hole T) (l : Tree T) (a : Ptr) (c : T) (r : Tree T)
      → IsAt nil s h (node l a c r)
      → IsAt nil s (on_right l a c h) r
  go_right h l a c r at = record {
    up = (at.down.0, at.down.1, at.up);
    down = at.down.2;
    once = λ x. omega (arith, at.once x);
    absent = omega (arith, at.absent);
  }

  pub up_left :
      (h : Hole T) (l : Tree T) (a : Ptr) (c : T) (r : Tree T)
      → IsAt nil s (on_left a c r h) l
      → IsAt nil s h (node l a c r)
  up_left h l a c r at = record {
    up = at.up.2;
    down = (at.up.0, at.down, at.up.1);
    once = λ x. omega (arith, at.once x);
    absent = omega (arith, at.absent);
  }

  pub up_right :
      (h : Hole T) (l : Tree T) (a : Ptr) (c : T) (r : Tree T)
      → IsAt nil s (on_right l a c h) r
      → IsAt nil s h (node l a c r)
  up_right h l a c r at = record {
    up = at.up.2;
    down = (at.up.0, at.up.1, at.down);
    once = λ x. omega (arith, at.once x);
    absent = omega (arith, at.absent);
  }

  -- back up to the root, and down again
  pub IsTree-plug : (h : Hole T) (t : Tree T) → IsAt nil s h t → IsTree nil s (plug h t)
  IsTree-plug top t at = at
  IsTree-plug (on_left a c r up) t at = IsTree-plug up (node t a c r) (up_left up t a c r at)
  IsTree-plug (on_right l a c up) t at = IsTree-plug up (node l a c t) (up_right up l a c t at)

  pub plug-IsAt : (h : Hole T) (t : Tree T) → IsTree nil s (plug h t) → IsAt nil s h t
  plug-IsAt top t at = at
  plug-IsAt (on_left a c r up) t at = go_left up t a c r (plug-IsAt up (node t a c r) at)
  plug-IsAt (on_right l a c up) t at = go_right up l a c t (plug-IsAt up (node l a c t) at)
