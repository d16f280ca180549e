-- ===== src/Bst/Delete/Detach.antt =====
-- `bst_delete`, the middle step: the next node, which lies below the right child, leaves its place
-- and takes the right subtree over.
use dsa.Prelude.{◌+◌, ◌≡◌, ◌==◌, true, refl, sym, ◌∙◌, subst, to_nat, to_nat_self, to_nat_eq, arith}
use dsa.Store.Access.{get_right-ok}
use dsa.Store.Returns.{Returns, bind, of_eq}
use dsa.Store.{Ptr, null, Store, live}
use dsa.Tree.Frame.{Same-trans}
use dsa.Tree.Lowest.{
  low_ptr, low_rest, low_right, low_hole, drop_low, count-low, count_hole-low, IsAt-low,
  IsAt-drop_low,
}
use dsa.Tree.Rep.{Same, IsAt}
use dsa.Tree.Walk.{go_right, up_right}
use dsa.Tree.{Tree, leaf, node, Hole, on_right, count, count_hole}
use dsa.Bst.Shift.{shift-Shifted}
use dsa.Tree.Hand.{IsReady, IsAt-Hangs, handed, hand_run, handed-Same, handed-IsReady}
use dsa.Bst.{Plain, detach}

pub record Detached (s : Store Plain) (h : Hole Plain) (a : Ptr) (l w : Tree Plain)
    (s' : Store Plain) : Type 0 where
  pub ready : IsReady null s' h a l w
  pub allocated : s'.allocated ≡ s.allocated
  pub same : (x : Ptr) → count_hole x h + to_nat (x == a) + count x l + count x w ≡ 0 → Same s s' x

module _ (s : Store Plain) (h : Hole Plain) (l : Tree Plain) (a : Ptr) (c : Plain) where
  -- `rl` is not empty: the lowest node below the right child is not that child
  pub detach-Detached :
      (ql : Tree Plain) (qb : Ptr) (qd : Plain) (qr : Tree Plain) (b : Ptr) (d : Plain)
      (rr : Tree Plain)
      → IsAt null s h (node l a c (node (node ql qb qd qr) b d rr))
      → Returns
          (λ _.
            Detached s h a l (node leaf (low_ptr ql qb) tt (node (drop_low ql qb qd qr) b d rr)))
          (detach a (low_ptr ql qb) s)
  unfolding detach
  detach-Detached ql qb qd qr b d rr at =
      let m = low_ptr ql qb in
      let rl = node ql qb qd qr in
      let hr = on_right l a c h in
      let hm = low_hole hr rl b d rr in
      let low = IsAt-low null hr rl b d rr (go_right null h l a c (node rl b d rr) at) in
      let rest = low_right rl rr in
      let k = λ (x : Ptr). count_hole-low x hr rl b d rr in
      let j = λ (x : Ptr). count-low x rl b d rr in
      let n = low.down.0 in
      rw (get_right-ok s m n.there, n.right)
        (bind
          (shift-Shifted hm m rest m (IsAt-Hangs null hm leaf m (low_rest rl d) rest low) low.down.2
            (λ x. omega (arith, low.once x)) (omega (arith, low.absent)))
          λ _ s' (at', al, same).
            let back =
              up_right null h l a c (drop_low rl b d rr) (IsAt-drop_low null hr rl b d rr at') in
            let own = same m (omega (arith, low.once m, to_nat_self m)) in
            let there = subst (λ f. live f m ≡ true) (sym al) n.there in
            of_eq tt (handed s' m b)
              (hand_run s' a m b back.down.0.there there back.down.2.0.there back.down.0.right
                (λ e. omega (arith, at.once m, j m, to_nat_self m, to_nat_eq (sym e))))
              (record {
                ready =
                    handed-IsReady null s' h l a c (drop_low ql qb qd qr) b d rr m tt back
                      (record {
                        there = there;
                        parent = refl;
                        left = own.0.left ∙ n.left;
                        right = refl;
                        rest = refl;
                      })
                      (λ x. omega (arith, at.once x, j x));
                allocated = al;
                same = λ x o. Same-trans (same x (omega (arith, o, k x))) (
                    handed-Same s' m b x (λ e. omega (arith, o, to_nat_eq e))
                      (λ e. omega (arith, o, to_nat_eq e)));
              }))
