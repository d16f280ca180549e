-- ===== src/Rb/Delete/Part.antt =====
-- The middle of the case with two children in `rb_delete`, where the next node is not the right child: it leaves
-- its place to its right subtree, and takes the right subtree of the deleted node over.
use dsa.Prelude.{
  ◌+◌, ◌≡◌, ◌≢◌, ◌==◌, true, refl, sym, ◌∙◌, ap, subst, to_nat, to_nat_self, to_nat_eq, arith,
}
use dsa.Rb.Change.{Held, IsSentinel-SameBelow}
use dsa.Rb.Defs.{Red, replace}
use dsa.Rb.Delete.Seat.{replace-Seated}
use dsa.Rb.Rotate.{update-out}
use dsa.Rb.Sentinel.{IsSentinel}
use dsa.Store.Access.{get_right-ok}
use dsa.Store.Returns.{Returns, bind, of_eq}
use dsa.Store.{Ptr, Store, Cmd, live, ◌>>=◌, ◌>>◌, get_right, set_right, set_parent}
use dsa.Tree.Distinct.{ptr-ne}
use dsa.Tree.Frame.{Same-trans}
use dsa.Tree.Hand.{IsReady, IsAt-Hangs, handed, hand_run, handed-Same, handed-IsReady}
use dsa.Tree.Lowest.{
  low_ptr, low_rest, low_right, low_hole, drop_low, count-low, count_hole-low, IsAt-low,
  IsAt-drop_low,
}
use dsa.Tree.Rep.{Same}
use dsa.Tree.Walk.{go_right, up_right}
use dsa.Tree.{Tree, leaf, node, Hole, on_right, ptr, above, count, count_hole}

abbrev pub part : (a m : Ptr) → Cmd Red (Unit {0})
part a m = do
  n ← get_right m
  replace m n
  r ← get_right a
  set_right m r
  r' ← get_right a
  set_parent r' m

-- `hole` is where the next node was, and `rest` its right subtree
pub record Parted (nil : Ptr) (s : Store Red) (h : Hole Red) (a : Ptr) (c : Red) (l w : Tree Red)
    (hole : Hole Red) (rest : Tree Red) (s' : Store Red) : Type 0 where
  pub ready : IsReady nil s' h a l w
  pub sentinel : IsSentinel nil s'
  pub colour : s'.rest a ≡ c
  pub parent : ptr nil rest ≡ nil → s'.parent nil ≡ above nil hole
  pub allocated : s'.allocated ≡ s.allocated
  pub same :
      (x : Ptr)
      → count_hole x h + to_nat (x == a) + count x l + count x w ≡ 0
      → x ≢ nil
      → Same s s' x

module _ {nil : Ptr} (s : Store Red) (h : Hole Red) (l : Tree Red) (a : Ptr) (c : Red) where
  pub part-Parted :
      (ql : Tree Red) (qb : Ptr) (qd : Red) (qr : Tree Red) (b : Ptr) (d : Red) (rr : Tree Red)
      → Held nil s h (node l a c (node (node ql qb qd qr) b d rr))
      → Returns
          (λ _.
            Parted nil s h a c l
              (node leaf (low_ptr ql qb) (low_rest ql qd) (node (drop_low ql qb qd qr) b d rr))
              (low_hole (on_right l a c h) (node ql qb qd qr) b d rr)
              (low_right (node ql qb qd qr) rr))
          (part a (low_ptr ql qb) s)
  part-Parted ql qb qd qr b d rr held =
      let at = held.at in
      let m = low_ptr ql qb in
      let rl = node ql qb qd qr in
      let hr = on_right l a c h in
      let hm = low_hole hr rl b d rr in
      let rest = low_right rl rr in
      let low = IsAt-low nil hr rl b d rr (go_right nil h l a c (node rl b d rr) at) in
      let k = λ (x : Ptr). count_hole-low x hr rl b d rr in
      let j = λ (x : Ptr). count-low x rl b d rr in
      let n = low.down.0 in
      let ne_m : m ≢ nil = λ e. omega (arith, at.absent, j nil, to_nat_eq (sym e)) in
      let ne_b : b ≢ nil = λ e. omega (arith, at.absent, to_nat_eq (sym e)) in
      rw (get_right-ok s m n.there, n.right)
        (bind
          (replace-Seated s hm m rest m (IsAt-Hangs nil hm leaf m (low_rest rl d) rest low) ne_m
            held.sentinel low.down.2 (λ x. omega (arith, low.once x)) (omega (arith, low.absent)))
          λ _ s' q.
            let back =
              up_right nil h l a c (drop_low rl b d rr)
                (IsAt-drop_low nil hr rl b d rr q.held.at) in
            let same = λ (x : Ptr) (o : count_hole x hm + count x rest ≡ 0) (ne : x ≢ nil).
              q.same x o (λ e. ptr-ne nil x rest ne (omega (arith, o)) (sym e)) in
            let own = same m (omega (arith, low.once m, to_nat_self m)) ne_m in
            let there = subst (λ g. live g m ≡ true) (sym q.allocated) n.there in
            of_eq tt (handed s' m b)
              (hand_run s' a m b back.down.0.there there back.down.2.0.there back.down.0.right
                (λ e. omega (arith, at.once m, j m, to_nat_self m, to_nat_eq (sym e))))
              (record {
                ready =
                    handed-IsReady nil s' h l a c (drop_low ql qb qd qr) b d rr m (low_rest ql qd)
                      back
                      (record {
                        there = there;
                        parent = refl;
                        left = own.0.left ∙ n.left;
                        right = refl;
                        rest = own.0.rest ∙ n.rest;
                      })
                      (λ x. omega (arith, at.once x, j x));
                sentinel =
                    IsSentinel-SameBelow nil s' (handed s' m b)
                      (handed-Same s' m b nil (λ e. ne_m (sym e)) (λ e. ne_b (sym e))).0
                      q.held.sentinel;
                colour = back.down.0.rest;
                parent = λ e.
                    update-out s'.parent b nil m (λ z. ne_b (sym z))
                    ∙ ap s'.parent (sym e)
                    ∙ q.parent;
                allocated = q.allocated;
                same = λ x o ne. Same-trans (same x (omega (arith, o, k x)) ne) (
                    handed-Same s' m b x (λ e. omega (arith, o, to_nat_eq e))
                      (λ e. omega (arith, o, to_nat_eq e)));
              }))
