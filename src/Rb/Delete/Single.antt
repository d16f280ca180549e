-- ===== src/Rb/Delete/Single.antt =====
-- The statements of `rb_delete` before its loop, for a node with at most one child, and the way to the next node.
use dsa.Prelude.{
  ℕ, zero, suc, ◌+◌, ◌≤◌, ◌<◌, ◌≡◌, ◌==◌, ==_refl, ==_false, false, refl, sym, to_nat_eq, ◌&&◌,
  arith,
}
use dsa.Rb.Change.{Held}
use dsa.Rb.Colours.{red_above, IsRb, IsRbHole, IsRbHole-eq}
use dsa.Rb.Defs.{Red}
use dsa.Rb.Delete.Seat.{Seated, replace-Seated}
use dsa.Rb.Delete.Unlinked.{Unlinked, IsVacant, plug-inorder}
use dsa.Rb.Delete.{lowest_loop, succeed, unlink}
use dsa.Store.Access.{get_left-ok, get_right-ok, get_rest-ok}
use dsa.Store.Returns.{Returns, returns, bind}
use dsa.Store.{Ptr, Store, ok}
use dsa.Tree.Distinct.{ptr-ne}
use dsa.Tree.Hand.{IsAt-Hangs}
use dsa.Tree.Locate.{join}
use dsa.Tree.Lowest.{low_ptr}
use dsa.Tree.Rep.{IsRep}
use dsa.Tree.{Tree, leaf, node, Hole, ptr, count, inorder, size}

module _ (nil : Ptr) (s : Store Red) where
  lowest_loop-low_ptr :
      (k : ℕ) (p : Ptr) (l : Tree Red) (a : Ptr) (c : Red) (r : Tree Red)
      → size l < k
      → count nil l ≡ 0
      → IsRep nil s p (node l a c r)
      → lowest_loop nil k a s ≡ ok (low_ptr l a) s
  unfolding lowest_loop
  lowest_loop-low_ptr zero p l a c r fuel apart d = absurd (omega arith)
  lowest_loop-low_ptr (suc k) p leaf a c r fuel apart (n, _, _) =
      rw (get_left-ok s a n.there, n.left, ==_refl nil) refl
  lowest_loop-low_ptr (suc k) p (node ll b d lr) a c r fuel apart (n, dl, dr) =
      let inner : (b == nil) ≡ false = ground arith in
      rw (get_left-ok s a n.there, n.left, inner)
        (lowest_loop-low_ptr k a ll b d lr (omega arith) (omega arith) dl)

module _ {nil : Ptr} (s : Store Red) (h : Hole Red) (a : Ptr) (c : Red) where
  -- what `rb_replace` by the only subtree leaves behind
  Seated-Unlinked :
      (l r w : Tree Red) (s' : Store Red)
      → Held nil s h (node l a c r)
      → ((x : Ptr) → count x w ≤ count x l + count x r)
      → inorder w ≡ inorder (join l r)
      → ((n : ℕ)
          → IsRbHole n h
          → IsRb n (node l a c r)
          → (c && red_above h) ≡ false
          → IsVacant c h w)
      → Seated nil s h w s'
      → Unlinked nil s h l a c r (c, ptr nil w) s'
  Seated-Unlinked l r w s' held part e colours q = record {
    hole = h;
    tree = w;
    held = q.held;
    extra = refl;
    parent = q.parent;
    order = plug-inorder h w (join l r) e;
    allocated = q.allocated;
    same = λ x o ne.
        q.same x (omega (arith, o, part x))
          (λ z. ptr-ne nil x w ne (omega (arith, o, part x)) (sym z));
    colours = colours;
  }

  pub unlink-no_left :
      (fuel : ℕ) (r : Tree Red)
      → Held nil s h (node leaf a c r)
      → Returns (Unlinked nil s h leaf a c r) (unlink nil fuel a s)
  unfolding unlink
  unlink-no_left fuel r held =
      let at = held.at in
      let n = at.down.0 in
      rw
        (
          get_rest-ok s a n.there,
          n.rest,
          get_left-ok s a n.there,
          n.left,
          ==_refl nil,
          get_right-ok s a n.there,
          n.right,
          get_right-ok s a n.there,
          n.right,
        )
        (bind
          (replace-Seated s h a r a (IsAt-Hangs nil h leaf a c r at)
            (λ e. omega (arith, at.absent, to_nat_eq (sym e))) held.sentinel at.down.2
            (λ x. omega (arith, at.once x)) (omega (arith, at.absent)))
          λ _ s' q. returns (
            Seated-Unlinked leaf r r s' held (λ x. omega arith) refl
              (λ n hole (m, e, cl, cr, rl, rr) calm. record {
                height = m;
                hole = IsRbHole-eq h e hole;
                tree = rr;
                calm = cr;
                calm_above = calm;
              })
              q))

  pub unlink-no_right :
      (fuel : ℕ) (ll : Tree Red) (b : Ptr) (d : Red) (lr : Tree Red)
      → Held nil s h (node (node ll b d lr) a c leaf)
      → Returns (Unlinked nil s h (node ll b d lr) a c leaf) (unlink nil fuel a s)
  unfolding unlink
  unlink-no_right fuel ll b d lr held =
      let at = held.at in
      let n = at.down.0 in
      let l = node ll b d lr in
      let inner : (b == nil) ≡ false =
        ==_false (λ e. omega (arith, at.absent, to_nat_eq (sym e))) in
      rw
        (
          get_rest-ok s a n.there,
          n.rest,
          get_left-ok s a n.there,
          n.left,
          inner,
          get_right-ok s a n.there,
          n.right,
          ==_refl nil,
          get_left-ok s a n.there,
          n.left,
          get_left-ok s a n.there,
          n.left,
        )
        (bind
          (replace-Seated s h a l a (IsAt-Hangs nil h l a c leaf at)
            (λ e. omega (arith, at.absent, to_nat_eq (sym e))) held.sentinel at.down.1
            (λ x. omega (arith, at.once x)) (omega (arith, at.absent)))
          λ _ s' q. returns (
            Seated-Unlinked l leaf l s' held (λ x. omega arith) refl
              (λ n hole (m, e, cl, cr, rl, rr) calm. record {
                height = m;
                hole = IsRbHole-eq h e hole;
                tree = rl;
                calm = cl;
                calm_above = calm;
              })
              q))

  -- with two children the walk finds the next node
  pub unlink-two :
      (ll : Tree Red) (b : Ptr) (d : Red) (lr rl : Tree Red) (e : Ptr) (f : Red) (rr : Tree Red)
      (fuel : ℕ)
      → size rl < fuel
      → Held nil s h (node (node ll b d lr) a c (node rl e f rr))
      → unlink nil fuel a s ≡ succeed nil a (low_ptr rl e) s
  unfolding unlink
  unlink-two ll b d lr rl e f rr fuel enough held =
      let at = held.at in
      let n = at.down.0 in
      let inner_b : (b == nil) ≡ false =
        ==_false (λ e. omega (arith, at.absent, to_nat_eq (sym e))) in
      let inner_e : (e == nil) ≡ false =
        ==_false (λ e. omega (arith, at.absent, to_nat_eq (sym e))) in
      rw
        (
          get_rest-ok s a n.there,
          get_left-ok s a n.there,
          n.left,
          inner_b,
          get_right-ok s a n.there,
          n.right,
          inner_e,
          get_right-ok s a n.there,
          n.right,
          lowest_loop-low_ptr nil s fuel a rl e f rr enough (omega (arith, at.absent)) at.down.2,
        )
        refl
