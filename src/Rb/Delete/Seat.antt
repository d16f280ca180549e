-- ===== src/Rb/Delete/Seat.antt =====
-- `rb_replace` with a tree apart from the rest, which may be empty: the sentinel then gets the parent.
use dsa.Prelude.{◌+◌, ◌≤◌, ◌≡◌, ◌≢◌, refl, arith}
use dsa.Rb.Below.{root_live}
use dsa.Rb.Change.{Held, IsSentinel-SameBelow}
use dsa.Rb.Defs.{Red, replace}
use dsa.Rb.Replace.{IsHung, replace_run}
use dsa.Rb.Rotate.{update-at}
use dsa.Rb.Sentinel.{IsSentinel}
use dsa.Store.Returns.{Returns, of_eq}
use dsa.Store.{Ptr, Store}
use dsa.Tree.Graft.{graft, graft-Same, IsAt-graft}
use dsa.Tree.Hand.{Hangs}
use dsa.Tree.Hook.{hook-Same}
use dsa.Tree.Rep.{Same, IsRep}
use dsa.Tree.{Tree, Hole, ptr, above, count, count_hole}

-- the tree stands in the hole, and its pointer has the node above as its parent
pub record Seated (nil : Ptr) (s : Store Red) (h : Hole Red) (w : Tree Red) (s' : Store Red)
    : Type 0 where
  pub held : Held nil s' h w
  pub parent : s'.parent (ptr nil w) ≡ above nil h
  pub allocated : s'.allocated ≡ s.allocated
  pub same : (x : Ptr) → count_hole x h + count x w ≡ 0 → x ≢ ptr nil w → Same s s' x

module _ {nil : Ptr} (s : Store Red) (h : Hole Red) (a : Ptr) where
  IsHung-root :
      (w : Tree Red) (p : Ptr)
      → Hangs nil s h a
      → a ≢ nil
      → IsSentinel nil s
      → IsRep nil s p w
      → IsHung nil s a (ptr nil w) h
  IsHung-root w p hangs ne z d = record {
    up = hangs.up;
    there = hangs.there;
    parent = hangs.parent;
    apart = hangs.apart;
    outer = ne;
    by = root_live p w z d;
  }

  pub replace-Seated :
      (w : Tree Red) (p : Ptr)
      → Hangs nil s h a
      → a ≢ nil
      → IsSentinel nil s
      → IsRep nil s p w
      → ((x : Ptr) → count_hole x h + count x w ≤ 1)
      → count_hole nil h + count nil w ≡ 0
      → Returns (λ _. Seated nil s h w) (replace a (ptr nil w) s)
  replace-Seated w p hangs ne z d once absent =
      let b = ptr nil w in
      let hooked = hook-Same s h b nil (omega arith) in
      of_eq tt (graft nil s h w) (replace_run nil s a b h (IsHung-root w p hangs ne z d)) (record {
        held = record {
          at = IsAt-graft nil s h w a p hangs.up d once absent;
          sentinel =
              IsSentinel-SameBelow nil s (graft nil s h w)
                (record {
                  allocated = refl;
                  left = hooked.0.left;
                  right = hooked.0.right;
                  rest = refl;
                })
                z;
        };
        parent = update-at s.parent b (above nil h);
        allocated = refl;
        same = λ x out ne'. graft-Same nil s h w x out ne';
      })
