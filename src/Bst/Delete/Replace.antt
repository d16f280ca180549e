-- ===== src/Bst/Delete/Replace.antt =====
-- `bst_delete`, the last step: the next node takes the place of the deleted one.
use dsa.Prelude.{
  ◌+◌, ◌≤◌, ◌<◌, true, subst, ◌≡◌, ◌≢◌, ◌==◌, sym, ◌∙◌, to_nat, to_nat_self, to_nat_eq, update,
  arith,
}
use dsa.Store.Access.{get_left-ok, set_left-ok, set_parent-ok}
use dsa.Store.Returns.{Returns, bind, of_eq}
use dsa.Store.{Ptr, null, Store, ok, live, ◌>>=◌, ◌>>◌, get_left, set_left, set_parent}
use dsa.Tree.Frame.{IsRep-Same, Same-trans}
use dsa.Tree.Graft.{graft, graft-Same, IsAt-graft}
use dsa.Tree.Rep.{Same, IsAt}
use dsa.Tree.Walk.{go_left, up_left}
use dsa.Tree.{Tree, leaf, node, Hole, on_left, count, count_hole}
use dsa.Bst.Shift.{shift-Shifted}
use dsa.Tree.Hand.{IsReady}
use dsa.Bst.{Plain, replace}

-- the tree stands in the hole, and the nodes outside are as before
pub record Fills (s : Store Plain) (h : Hole Plain) (t : Tree Plain) (s' : Store Plain)
    : Type 0 where
  pub at : IsAt null s' h t
  pub allocated : s'.allocated ≡ s.allocated
  pub same : (x : Ptr) → count_hole x h + count x t ≡ 0 → Same s s' x

module _ (s : Store Plain) (h : Hole Plain) (a m : Ptr) (c : Plain) (r : Tree Plain) where
  -- the two assignments that hand the left subtree over
  attach_run :
      (ll : Tree Plain) (b : Ptr) (d : Plain) (lr : Tree Plain)
      → live s.allocated a ≡ true
      → live s.allocated m ≡ true
      → live s.allocated b ≡ true
      → s.left a ≡ b
      → a ≢ m
      → (do l ← get_left a; set_left m l; l' ← get_left a; set_parent l' m) s
        ≡ ok tt (graft null s (on_left m c r h) (node ll b d lr))
  attach_run ll b d lr ta tm tb e ne =
      let s' : Store Plain = record s { left = update s.left m b } in
      let e' : s'.left a ≡ b = ground arith in
      rw (
        get_left-ok s a ta,
        e,
        set_left-ok s m tm b,
        get_left-ok s' a ta,
        e',
        set_parent-ok s' b tb m,
      )

module _ (s : Store Plain) (h : Hole Plain) (a m : Ptr) (c : Plain) (r : Tree Plain) where
  -- the next node takes the place of `a` and its left subtree
  pub replace-Fills :
      (ll : Tree Plain) (b : Ptr) (d : Plain) (lr : Tree Plain)
      → IsReady null s h a (node ll b d lr) (node leaf m c r)
      → ((x : Ptr) → count_hole x h + to_nat (x == a) + count x (node (node ll b d lr) m c r) ≤ 1)
      → count_hole null h + count null (node (node ll b d lr) m c r) ≡ 0
      → Returns (λ _. Fills s h (node (node ll b d lr) m c r)) (replace a m s)
  unfolding replace
  replace-Fills ll b d lr ready once absent =
      let l = node ll b d lr in
      let w = node leaf m c r in
      bind
        (shift-Shifted h a w (s.parent m) ready.hangs ready.next (λ x. omega (arith, once x))
          (omega (arith, absent)))
        λ _ s' (at, al, same).
          let spared = λ (x : Ptr) (i : 0 < count x l). same x (omega (arith, once x)) in
          let own = same a (omega (arith, once a, to_nat_self a)) in
          let left = IsRep-Same null l a ready.left spared in
          of_eq tt (graft null s' (on_left m c r h) l)
            (attach_run s' h a m c r ll b d lr
              (subst (λ f. live f a ≡ true) (sym al) ready.hangs.there) at.down.0.there left.0.there
              (own.0.left ∙ ready.child)
              (λ e. omega (arith, once m, to_nat_self m, to_nat_eq (sym e))))
            (record {
              at = up_left null h l m c r (
                  IsAt-graft null s' (on_left m c r h) l null a (go_left null h leaf m c r at).up
                    left (λ x. omega (arith, once x)) (omega (arith, absent)));
              allocated = al;
              same = λ x o. Same-trans (same x (omega (arith, o))) (
                  graft-Same null s' (on_left m c r h) l x (omega (arith, o))
                    (λ e. omega (arith, o, to_nat_eq e)));
            })
