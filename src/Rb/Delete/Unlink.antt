-- ===== src/Rb/Delete/Unlink.antt =====
-- The statements of `rb_delete` before its loop, for a node with two children, and for every node.
use dsa.Prelude.{
  ℕ, ◌+◌, ◌<◌, ◌≡◌, ◌≢◌, ==_refl, ==_false, refl, sym, ◌∙◌, ap, subst, to_nat_self, to_nat_eq,
  update, Bool, arith,
}
use dsa.Rb.Below.{root_live}
use dsa.Rb.Change.{Held, IsSentinel-SameBelow}
use dsa.Rb.Defs.{Red}
use dsa.Rb.Delete.Part.{part-Parted}
use dsa.Rb.Delete.Single.{unlink-no_left, unlink-no_right, unlink-two}
use dsa.Rb.Delete.Take.{take-Fills}
use dsa.Rb.Delete.Unlinked.{
  Unlinked, IsVacant, plug-inorder, plug-low, IsAt-low_right, two-IsVacant, above-low,
}
use dsa.Rb.Delete.{succeed, unlink}
use dsa.Rb.Rotate.{update-at}
use dsa.Store.Access.{get_right-ok, get_rest-ok, set_parent-ok}
use dsa.Store.Returns.{Returns, bind, mono}
use dsa.Store.{Ptr, Store}
use dsa.Tree.Frame.{IsRep-Same, IsRepHole-Same, Same-trans, set_parent-Same}
use dsa.Tree.Hand.{IsReady, IsAt-Hangs}
use dsa.Tree.Lowest.{low_ptr, low_rest, low_right, low_hole, drop_low, count-low, IsAt-low}
use dsa.Tree.Rep.{Same, IsRep}
use dsa.Tree.Walk.{go_right}
use dsa.Tree.{Tree, leaf, node, Hole, on_right, ptr, above, count, count_hole, inorder, size}

-- a write of the parent that the tree's root has, or of the sentinel's
reparent-Same :
    {nil : Ptr} (s : Store Red) (p : Ptr) (w : Tree Red) (x : Ptr)
    → IsRep nil s p w
    → x ≢ nil
    → Same s (record s { parent = update s.parent (ptr nil w) p }) x
reparent-Same {nil} s p leaf x d ne = set_parent-Same s nil p x ne
reparent-Same s p (node l b c r) x (n, _, _) ne =
    (record { allocated = refl; left = refl; right = refl; rest = refl }, ground (arith, n.parent))

-- the parent of the tree's root, and the sentinel's where the tree is empty
parent-ptr :
    {nil : Ptr} (s : Store Red) (p : Ptr) (w : Tree Red)
    → IsRep nil s p w
    → (ptr nil w ≡ nil → s.parent nil ≡ p)
    → s.parent (ptr nil w) ≡ p
parent-ptr s p leaf d own = own refl
parent-ptr s p (node l b c r) (n, _, _) own = n.parent

module _ {nil : Ptr} (s : Store Red) (h : Hole Red) (a : Ptr) (c : Red) where
  reparent-Held :
      (l : Tree Red) (e : Ptr) (f : Red) (rr : Tree Red)
      → Held nil s h (node l a c (node leaf e f rr))
      → Held nil
          (record s { parent = update s.parent (ptr nil rr) e })
          h
          (node l a c (node leaf e f rr))
  reparent-Held l e f rr held =
      let at = held.at in
      let same = λ (x : Ptr) (i : 0 < count_hole x h + count x (node l a c (node leaf e f rr))).
        reparent-Same s e rr x at.down.2.2 (λ z. omega (
          arith,
          at.absent,
          i,
          ap (λ y. count_hole y h + count y (node l a c (node leaf e f rr))) z,
        )) in
      record {
        at = record {
          up = IsRepHole-Same nil h a at.up (λ x i. same x (omega (arith, i))) refl;
          down =
              IsRep-Same nil (node l a c (node leaf e f rr)) (above nil h) at.down
                (λ x i. same x (omega (arith, i)));
          once = at.once;
          absent = at.absent;
        };
        sentinel =
            IsSentinel-SameBelow nil s (record s { parent = update s.parent (ptr nil rr) e })
              (record { allocated = refl; left = refl; right = refl; rest = refl }) held.sentinel;
      }

module _ {nil : Ptr} (s : Store Red) (h : Hole Red) (a : Ptr) (c : Red) (ll : Tree Red) (b : Ptr)
    (d : Red) (lr : Tree Red) (fuel : ℕ) where
  -- the right child has no left child: it is the next node
  unlink-next_right :
      (e : Ptr) (f : Red) (rr : Tree Red)
      → 0 < fuel
      → Held nil s h (node (node ll b d lr) a c (node leaf e f rr))
      → Returns (Unlinked nil s h (node ll b d lr) a c (node leaf e f rr)) (unlink nil fuel a s)
  unfolding succeed
  unlink-next_right e f rr enough held =
      let l = node ll b d lr in
      let k = reparent-Held s h a c l e f rr held in
      let s₁ : Store Red = record s { parent = update s.parent (ptr nil rr) e } in
      let at = k.at in
      let n = held.at.down.0 in
      let m = held.at.down.2.0 in
      let z : Bool × Ptr = (f, ptr nil rr) in
      let ready : IsReady nil s₁ h a l (node leaf e f rr) = record {
        hangs = IsAt-Hangs nil h l a c (node leaf e f rr) at;
        child = at.down.0.left;
        left = at.down.1;
        next = subst (λ p. IsRep nil s₁ p (node leaf e f rr)) (sym at.down.2.0.parent) at.down.2;
      } in
      rw
        (
          unlink-two s h a c ll b d lr leaf e f rr fuel enough held,
          get_rest-ok s e m.there,
          m.rest,
          get_right-ok s e m.there,
          m.right,
          get_right-ok s a n.there,
          n.right,
          ==_refl e,
          set_parent-ok s (ptr nil rr) (root_live e rr held.sentinel held.at.down.2.2) e,
        )
        (mono
          (take-Fills z s₁ h a e c f rr ll b d lr ready k.sentinel at.down.0.rest
            (λ v. omega (arith, at.absent, to_nat_eq (sym v))) (λ x. omega (arith, at.once x))
            (omega (arith, at.absent)))
          λ y s' (y≡, q).
            let at' = go_right nil h l e c rr q.held.at in
            record {
              hole = on_right l e c h;
              tree = rr;
              held = record { at = at'; sentinel = q.held.sentinel };
              extra = ap (λ v. v.1) y≡;
              parent = parent-ptr s' e rr at'.down (λ v.
                  (q.same nil (omega (arith, at.absent))).1
                  ∙ ap s₁.parent (sym v)
                  ∙ update-at s.parent (ptr nil rr) e);
              order = plug-inorder h (node l e c rr) (node l e f rr) refl;
              allocated = q.allocated;
              same = λ x o ne.
                  Same-trans (reparent-Same s e rr x held.at.down.2.2 ne)
                    (q.same x (omega (arith, o)));
              colours = λ j hole rb calm.
                  subst (λ v. IsVacant v (on_right l e c h) rr) (sym (ap (λ v. v.0) y≡))
                    (two-IsVacant h l a e c leaf e f rr j hole rb calm);
            })

  -- the next node is below the right child
  unlink-next_below :
      (ql : Tree Red) (qb : Ptr) (qd : Red) (qr : Tree Red) (e : Ptr) (f : Red) (rr : Tree Red)
      → size (node ql qb qd qr) < fuel
      → Held nil s h (node (node ll b d lr) a c (node (node ql qb qd qr) e f rr))
      → Returns
          (Unlinked nil s h (node ll b d lr) a c (node (node ql qb qd qr) e f rr))
          (unlink nil fuel a s)
  unfolding succeed
  unlink-next_below ql qb qd qr e f rr enough held =
      let l = node ll b d lr in
      let rl = node ql qb qd qr in
      let at = held.at in
      let n = at.down.0 in
      let hr = on_right l a c h in
      let m = low_ptr ql qb in
      let rest = low_right rl rr in
      let low = IsAt-low nil hr rl e f rr (go_right nil h l a c (node rl e f rr) at) in
      let t = low.down.0 in
      let z : Bool × Ptr = (low_rest ql qd, ptr nil rest) in
      let j = λ (x : Ptr). count-low x rl e f rr in
      let ne : m ≢ e = λ v. omega (arith, at.once e, j e, to_nat_self e, to_nat_eq (sym v)) in
      let down = node (drop_low ql qb qd qr) e f rr in
      rw
        (
          unlink-two s h a c ll b d lr rl e f rr fuel enough held,
          get_rest-ok s m t.there,
          t.rest,
          get_right-ok s m t.there,
          t.right,
          get_right-ok s a n.there,
          n.right,
          ==_false ne,
        )
        (bind (part-Parted s h l a c ql qb qd qr e f rr held) λ _ s₁ p.
          mono
            (take-Fills z s₁ h a m c (low_rest ql qd) down ll b d lr p.ready p.sentinel p.colour
              (λ v. omega (arith, at.absent, to_nat_eq (sym v)))
              (λ x. omega (arith, at.once x, j x)) (omega (arith, at.absent, j nil)))
            λ y s' (y≡, q).
              let hole = low_hole (on_right l m c h) rl e f rr in
              let at' =
                IsAt-low_right nil (on_right l m c h) rl e f rr
                  (go_right nil h l m c down q.held.at) in
              record {
                hole = hole;
                tree = rest;
                held = record { at = at'; sentinel = q.held.sentinel };
                extra = ap (λ v. v.1) y≡;
                parent = parent-ptr s' (above nil hole) rest at'.down (λ v.
                    (q.same nil (omega (arith, at.absent, j nil))).1
                    ∙ p.parent v
                    ∙ above-low nil hr (on_right l m c h) ql qb qd qr e f rr);
                order =
                    ap (λ v. inorder v) (plug-low (on_right l m c h) rl e f rr)
                    ∙ plug-inorder h (node l m c down) (node l m f down) refl;
                allocated = q.allocated ∙ p.allocated;
                same = λ x o ne'.
                    Same-trans (p.same x (omega (arith, o, j x)) ne')
                      (q.same x (omega (arith, o, j x)));
                colours = λ k around rb calm.
                    subst (λ v. IsVacant v hole rest) (sym (ap (λ v. v.0) y≡))
                      (two-IsVacant h l a m c rl e f rr k around rb calm);
              })

module _ {nil : Ptr} (s : Store Red) (h : Hole Red) (a : Ptr) (c : Red) (fuel : ℕ) where
  pub unlink-Unlinked :
      (l r : Tree Red)
      → size r < fuel
      → Held nil s h (node l a c r)
      → Returns (Unlinked nil s h l a c r) (unlink nil fuel a s)
  unlink-Unlinked leaf r enough held = unlink-no_left s h a c fuel r held
  unlink-Unlinked (node ll b d lr) leaf enough held = unlink-no_right s h a c fuel ll b d lr held
  unlink-Unlinked (node ll b d lr) (node leaf e f rr) enough held =
      unlink-next_right s h a c ll b d lr fuel e f rr (omega arith) held
  unlink-Unlinked (node ll b d lr) (node (node ql qb qd qr) e f rr) enough held =
      unlink-next_below s h a c ll b d lr fuel ql qb qd qr e f rr (omega arith) held
