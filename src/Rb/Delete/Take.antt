-- ===== src/Rb/Delete/Take.antt =====
-- The end of the case with two children in `rb_delete`: the next node takes the place, the left subtree and the
-- colour of the deleted one.
use dsa.Prelude.{
  ◌+◌, ◌≤◌, ◌<◌, true, subst, ◌≡◌, ◌≢◌, ◌==◌, refl, sym, ◌∙◌, to_nat, to_nat_self, to_nat_eq,
  update, arith,
}
use dsa.Rb.Change.{Held, IsSentinel-SameBelow, painted-Change}
use dsa.Rb.Defs.{Red, replace}
use dsa.Rb.Delete.Seat.{replace-Seated}
use dsa.Rb.Sentinel.{IsSentinel}
use dsa.Store.Access.{get_left-ok, set_left-ok, set_parent-ok, get_rest-ok, set_rest-ok}
use dsa.Store.Returns.{Returns, bind, of_eq}
use dsa.Store.{
  Ptr, Store, Cmd, ok, pure, live, ◌>>=◌, ◌>>◌, get_left, set_left, set_parent, get_rest, set_rest,
}
use dsa.Tree.Frame.{IsRep-Same, Same-trans, set_rest-Same}
use dsa.Tree.Graft.{graft, graft-Same, IsAt-graft}
use dsa.Tree.Hand.{IsReady}
use dsa.Tree.Rep.{Same}
use dsa.Tree.Walk.{go_left, up_left}
use dsa.Tree.{Tree, leaf, node, Hole, on_left, count, count_hole}

-- the tree stands in the hole beside the sentinel, and all else is as before
pub record Fills (nil : Ptr) (s : Store Red) (h : Hole Red) (t : Tree Red) (s' : Store Red)
    : Type 0 where
  pub held : Held nil s' h t
  pub allocated : s'.allocated ≡ s.allocated
  pub same : (x : Ptr) → count_hole x h + count x t ≡ 0 → Same s s' x

-- the statements after `rb_replace(tree, node, next)`
abbrev attach : {A : Type 0} → A → (a m : Ptr) → Cmd Red A
attach z a m = do
  l ← get_left a
  set_left m l
  l' ← get_left a
  set_parent l' m
  red ← get_rest a
  set_rest m red
  pure z

abbrev pub take : {A : Type 0} → A → (a m : Ptr) → Cmd Red A
take z a m = do replace a m; attach z a m

module _ {A : Type 0} (z : A) (s : Store Red) (a m : Ptr) (c : Red) where
  attach_run :
      (b : Ptr)
      → live s.allocated a ≡ true
      → live s.allocated m ≡ true
      → live s.allocated b ≡ true
      → s.left a ≡ b
      → s.rest a ≡ c
      → a ≢ m
      → attach z a m s
        ≡ ok z (record s {
          parent = update s.parent b m;
          left = update s.left m b;
          rest = update s.rest m c;
        })
  attach_run b ta tm tb e e_c ne =
      let s₁ : Store Red = record s { left = update s.left m b } in
      let s₂ : Store Red = record s₁ { parent = update s₁.parent b m } in
      let e' : s₁.left a ≡ b = ground arith in
      rw
        (
          get_left-ok s a ta,
          e,
          set_left-ok s m tm b,
          get_left-ok s₁ a ta,
          e',
          set_parent-ok s₁ b tb m,
          get_rest-ok s₂ a ta,
          e_c,
          set_rest-ok s₂ m tm c,
        )
        refl

module _ {A : Type 0} (z : A) {nil : Ptr} (s : Store Red) (h : Hole Red) (a m : Ptr) (c f : Red)
    (r : Tree Red) where
  pub take-Fills :
      (ll : Tree Red) (b : Ptr) (d : Red) (lr : Tree Red)
      → IsReady nil s h a (node ll b d lr) (node leaf m f r)
      → IsSentinel nil s
      → s.rest a ≡ c
      → a ≢ nil
      → ((x : Ptr) → count_hole x h + to_nat (x == a) + count x (node (node ll b d lr) m c r) ≤ 1)
      → count_hole nil h + count nil (node (node ll b d lr) m c r) ≡ 0
      → Returns (λ y s'. (y ≡ z) × Fills nil s h (node (node ll b d lr) m c r) s') (take z a m s)
  take-Fills ll b d lr ready sentinel e_c ne once absent =
      let l = node ll b d lr in
      let w = node leaf m f r in
      let ne_m : a ≢ m = λ e. omega (arith, once m, to_nat_self m, to_nat_eq (sym e)) in
      bind
        (replace-Seated s h a w (s.parent m) ready.hangs ne sentinel ready.next
          (λ x. omega (arith, once x)) (omega (arith, absent)))
        λ _ s₁ q.
          let same = λ (x : Ptr) (o : count_hole x h + count x w ≡ 0).
            q.same x o (λ e. omega (arith, o, to_nat_eq e)) in
          let spared = λ (x : Ptr) (i : 0 < count x l). same x (omega (arith, once x)) in
          let own = same a (omega (arith, once a, to_nat_self a)) in
          let left = IsRep-Same nil l a ready.left spared in
          let at = q.held.at in
          let hm = on_left m f r h in
          let u = graft nil s₁ hm l in
          let grafted = λ (x : Ptr) (o : count_hole x h + count x (node l m c r) ≡ 0).
            graft-Same nil s₁ hm l x (omega (arith, o)) (λ e. omega (arith, o, to_nat_eq e)) in
          let held : Held nil u h (node l m f r) = record {
            at = up_left nil h l m f r (
                IsAt-graft nil s₁ hm l nil a (go_left nil h leaf m f r at).up left
                  (λ x. omega (arith, once x)) (omega (arith, absent)));
            sentinel =
                IsSentinel-SameBelow nil s₁ u (grafted nil (omega (arith, absent))).0
                  q.held.sentinel;
          } in
          of_eq z (record u { rest = update u.rest m c })
            (attach_run z s₁ a m c b
              (subst (λ g. live g a ≡ true) (sym q.allocated) ready.hangs.there) at.down.0.there
              left.0.there (own.0.left ∙ ready.child) (own.0.rest ∙ e_c) ne_m)
            (
              refl,
              record {
                held = (painted-Change u h l m f c r held).held;
                allocated = q.allocated;
                same = λ x o. Same-trans (same x (omega (arith, o))) (
                    Same-trans (grafted x o)
                      (set_rest-Same u m c x (λ e. omega (arith, o, to_nat_eq e))));
              },
            )
