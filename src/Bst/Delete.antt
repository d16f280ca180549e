-- ===== src/Bst/Delete.antt =====
-- `bst_delete`.
pub mod Replace
pub mod Detach
use dsa.Bst.Delete.Detach.{Detached, detach-Detached}
use dsa.Bst.Delete.Replace.{Fills, replace-Fills}
use dsa.Tree.Hand.{IsReady, IsAt-Hangs}
use dsa.Bst.Shift.{Shifted, shift-Shifted}
use dsa.Bst.{Plain, lowest_loop, detach, replace, delete}
use dsa.Order.{IsSorted, erase}
use dsa.Order.Sorted.{erase-IsSorted}
use dsa.Prelude.Int.{ℤ}
use dsa.Prelude.{
  ℕ, zero, suc, ◌+◌, ◌≤◌, ◌<◌, ◌≡◌, ◌≢◌, ◌==◌, if◌then◌else◌, refl, sym, ◌∙◌, ap, subst, ==_refl,
  ==_false, to_nat, to_nat_self, to_nat_eq, arith,
}
use dsa.Store.Access.{live-not_null, get_left-ok, get_right-ok}
use dsa.Store.Returns.{Returns, returns, bind, mono}
use dsa.Store.{Ptr, null, Store, ok, pure, live, ◌>>◌}
use dsa.Tree.Frame.{IsRep-Same, Same-trans}
use dsa.Tree.Locate.{Place, locate, join, inorder-plug-join}
use dsa.Tree.Lowest.{low_ptr, drop_low, count-low}
use dsa.Tree.Rep.{Same, IsNode, IsRep, IsAt, IsTree, Becomes}
use dsa.Tree.Shape.{count-plug, size-le-plug}
use dsa.Tree.Walk.{IsTree-plug, plug-IsAt}
use dsa.Tree.{Tree, leaf, node, Hole, top, ptr, plug, count, count_hole, inorder, size}

lowest_loop-low_ptr :
    (s : Store Plain) (k : ℕ) (p : Ptr) (l : Tree Plain) (a : Ptr) (c : Plain) (r : Tree Plain)
    → size l < k
    → IsRep null s p (node l a c r)
    → lowest_loop k a s ≡ ok (low_ptr l a) s
unfolding lowest_loop
lowest_loop-low_ptr s zero p l a c r fuel d = absurd (omega arith)
lowest_loop-low_ptr s (suc k) p leaf a c r fuel (n, _, _) = rw (get_left-ok s a n.there, n.left)
lowest_loop-low_ptr s (suc k) p (node ll b d lr) a c r fuel (n, dl, dr) =
    rw (get_left-ok s a n.there, n.left, live-not_null s.allocated b dl.0.there)
      (lowest_loop-low_ptr s k a ll b d lr (omega arith) dl)

-- the tree stands in the place of `a`, and the nodes outside are as before
record Takes (s : Store Plain) (h : Hole Plain) (a : Ptr) (t : Tree Plain) (s' : Store Plain)
    : Type 0 where
  at : IsAt null s' h t
  allocated : s'.allocated ≡ s.allocated
  same : (x : Ptr) → count_hole x h + to_nat (x == a) + count x t ≡ 0 → Same s s' x

module _ (s : Store Plain) (h : Hole Plain) (a : Ptr) (c : Plain) where
  delete-no_left :
      (fuel : ℕ) (r : Tree Plain)
      → IsAt null s h (node leaf a c r)
      → Returns (λ _. Takes s h a r) (delete fuel a s)
  unfolding delete
  delete-no_left fuel r at =
      let n = at.down.0 in
      rw (get_left-ok s a n.there, n.left, get_right-ok s a n.there, n.right)
        (mono
          (shift-Shifted h a r a (IsAt-Hangs null h leaf a c r at) at.down.2
            (λ x. omega (arith, at.once x)) (omega (arith, at.absent)))
          λ _ s' (at', al, same). record {
            at = at';
            allocated = al;
            same = λ x o. same x (omega (arith, o));
          })

  delete-no_right :
      (fuel : ℕ) (ll : Tree Plain) (b : Ptr) (d : Plain) (lr : Tree Plain)
      → IsAt null s h (node (node ll b d lr) a c leaf)
      → Returns (λ _. Takes s h a (node ll b d lr)) (delete fuel a s)
  unfolding delete
  delete-no_right fuel ll b d lr at =
      let n = at.down.0 in
      let l = node ll b d lr in
      rw
        (
          get_left-ok s a n.there,
          n.left,
          live-not_null s.allocated b at.down.1.0.there,
          get_right-ok s a n.there,
          n.right,
          get_left-ok s a n.there,
          n.left,
        )
        (mono
          (shift-Shifted h a l a (IsAt-Hangs null h l a c leaf at) at.down.1
            (λ x. omega (arith, at.once x)) (omega (arith, at.absent)))
          λ _ s' (at', al, same). record {
            at = at';
            allocated = al;
            same = λ x o. same x (omega (arith, o));
          })

  module _ (ll : Tree Plain) (b : Ptr) (d : Plain) (lr : Tree Plain) (fuel : ℕ) where
    -- with two children the walk finds the next node, and the rest of the code moves it
    delete-two :
        (rl : Tree Plain) (e : Ptr) (f : Plain) (rr : Tree Plain)
        → size rl < fuel
        → IsAt null s h (node (node ll b d lr) a c (node rl e f rr))
        → delete fuel a s
          ≡ ((if low_ptr rl e == e then pure tt else detach a (low_ptr rl e))
                >> replace a (low_ptr rl e))
              s
    unfolding delete
    delete-two rl e f rr enough at =
        let n = at.down.0 in
        let r = get_right-ok s a n.there in
        rw (
          get_left-ok s a n.there,
          n.left,
          live-not_null s.allocated b at.down.1.0.there,
          r,
          n.right,
          live-not_null s.allocated e at.down.2.0.there,
          r,
          n.right,
          lowest_loop-low_ptr s fuel a rl e f rr enough at.down.2,
          r,
          n.right,
        )

    -- the right child has no left child: it is the next node
    delete-next_right :
        (e : Ptr) (f : Plain) (rr : Tree Plain)
        → 0 < fuel
        → IsAt null s h (node (node ll b d lr) a c (node leaf e f rr))
        → Returns (λ _. Takes s h a (node (node ll b d lr) e f rr)) (delete fuel a s)
    delete-next_right e f rr enough at =
        let n = at.down.2.0 in
        let ready : IsReady null s h a (node ll b d lr) (node leaf e f rr) = record {
          hangs = IsAt-Hangs null h (node ll b d lr) a c (node leaf e f rr) at;
          child = at.down.0.left;
          left = at.down.1;
          next = subst (λ p. IsRep null s p (node leaf e f rr)) (sym n.parent) at.down.2;
        } in
        rw (delete-two leaf e f rr enough at, ==_refl e)
          (mono
            (replace-Fills s h a e f rr ll b d lr ready (λ x. omega (arith, at.once x))
              (omega (arith, at.absent)))
            λ _ s' t. record {
              at = t.at;
              allocated = t.allocated;
              same = λ x o. t.same x (omega (arith, o));
            })

    -- the next node is below the right child
    delete-next_below :
        (ql : Tree Plain) (qb : Ptr) (qd : Plain) (qr : Tree Plain) (e : Ptr) (f : Plain)
        (rr : Tree Plain)
        → size (node ql qb qd qr) < fuel
        → IsAt null s h (node (node ll b d lr) a c (node (node ql qb qd qr) e f rr))
        → Returns
            (λ _.
              Takes s h a
                (node (node ll b d lr) (low_ptr ql qb) f (node (drop_low ql qb qd qr) e f rr)))
            (delete fuel a s)
    delete-next_below ql qb qd qr e f rr enough at =
        let rl = node ql qb qd qr in
        let m = low_ptr ql qb in
        let j = λ (x : Ptr). count-low x rl e f rr in
        let ne : m ≢ e = λ z. omega (arith, at.once e, j e, to_nat_self e, to_nat_eq (sym z)) in
        rw (delete-two rl e f rr enough at, ==_false ne)
          (bind (detach-Detached s h (node ll b d lr) a c ql qb qd qr e f rr at) λ _ s' t.
            mono
              (replace-Fills s' h a m f (node (drop_low ql qb qd qr) e f rr) ll b d lr t.ready
                (λ x. omega (arith, at.once x, j x)) (omega (arith, at.absent, j null)))
              λ _ s'' u. record {
                at = u.at;
                allocated = u.allocated ∙ t.allocated;
                same =
                    λ x o. Same-trans (t.same x (omega (arith, o))) (u.same x (omega (arith, o)));
              })

  delete-Takes :
      (fuel : ℕ) (l r : Tree Plain)
      → IsAt null s h (node l a c r)
      → size r < fuel
      → Returns (λ _. Takes s h a (join l r)) (delete fuel a s)
  delete-Takes fuel leaf r at enough = delete-no_left fuel r at
  delete-Takes fuel (node ll b d lr) leaf at enough = delete-no_right fuel ll b d lr at
  delete-Takes fuel (node ll b d lr) (node leaf e f rr) at enough =
      delete-next_right ll b d lr fuel e f rr (omega arith) at
  delete-Takes fuel (node ll b d lr) (node (node ql qb qd qr) e f rr) at enough =
      delete-next_below ll b d lr fuel ql qb qd qr e f rr (omega arith) at

-- `bst_delete` of a node of a sorted tree returns without a fault; it takes that node out of the
-- order, moves no other, and leaves the nodes outside the tree as they were
pub delete-erase :
    (cmp : Ptr → Ptr → ℤ) (fuel : ℕ) (a : Ptr) (s : Store Plain) (t : Tree Plain)
    → IsTree null s t
    → IsSorted cmp (inorder t)
    → 0 < count a t
    → size t < fuel
    → Returns
        (λ _ s'.
          (t' : Tree Plain) × Becomes null s t t' s'
          × (inorder t' ≡ erase a (inorder t))
          × IsSorted cmp (inorder t'))
        (delete fuel a s)
delete-erase cmp fuel a s t tree sorted i enough =
    let p = locate a top t i in
    let old = node p.left a p.tag p.right in
    let new = join p.left p.right in
    let at = plug-IsAt null p.hole old (subst (IsTree null s) (sym p.whole) tree) in
    let small : size p.right < fuel =
      omega (arith, size-le-plug p.hole old, ap (λ u. size u) p.whole, enough) in
    let e : inorder (plug p.hole new) ≡ erase a (inorder t) =
      inorder-plug-join p.hole p.left a p.tag p.right (omega (arith, at.once a, to_nat_self a))
      ∙ ap (λ u. erase a (inorder u)) p.whole in
    mono (delete-Takes s p.hole a p.tag fuel p.left p.right at small) λ _ s' u. (
      plug p.hole new,
      record {
        tree = IsTree-plug null p.hole new u.at;
        allocated = u.allocated;
        same = λ x o. u.same x (
            omega (
              arith,
              o,
              count-plug x p.hole new,
              count-plug x p.hole old,
              ap (λ v. count x v) p.whole,
            ));
      },
      e,
      subst (IsSorted cmp) (sym e) (erase-IsSorted cmp a (inorder t) sorted),
    )
