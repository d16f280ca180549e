-- ===== src/Bst/Shift.antt =====
-- `bst_shift`: what stands below a hole is replaced by another tree.
use dsa.Prelude.{
  ◌+◌, ◌≤◌, ◌≡◌, ◌≢◌, ◌==◌, true, if◌then◌else◌, refl, sym, ap, to_nat, to_nat_self, ◌∙◌, update,
  arith,
}
use dsa.Store.{
  Ptr, null, Store, Cmd, ok, pure, live, get_parent, get_left, set_left, set_right, set_parent,
}
use dsa.Store.Returns.{Returns, of_eq}
use dsa.Tree.{Tree, leaf, node, Hole, top, on_left, on_right, ptr, above, count, count_hole}
use dsa.Store.Access.{live-ne}
use dsa.Tree.Distinct.{ptr-ne}
use dsa.Tree.Hand.{Hangs}
use dsa.Tree.Graft.{graft, graft-Same, IsAt-hook, IsAt-graft}
use dsa.Tree.Hook.{hook, hook-Same}
use dsa.Tree.Rep.{Same, IsRep, IsRepHole, IsAt}
use dsa.Bst.{Plain, shift}

-- the store after `bst_shift`
abbrev shifted : Store Plain → Hole Plain → Tree Plain → Store Plain
shifted s h leaf = hook s h null
shifted s h (node l b c r) = graft null s h (node l b c r)

abbrev reparent : Ptr → Ptr → Cmd Plain (Unit {0})
reparent w p = if w == null then pure tt else set_parent w p

reparent_run :
    (s : Store Plain) (h : Hole Plain) (w : Tree Plain) (p : Ptr)
    → IsRep null s p w
    → count null w ≡ 0
    → reparent (ptr null w) (above null h) (hook s h (ptr null w)) ≡ ok tt (shifted s h w)
unfolding set_parent
reparent_run s h leaf p d absent = refl
reparent_run s h (node l a c r) p (n, _, _) absent =
    let there = n.there in let ne : a ≢ null = ground arith in ground arith

module _ (s : Store Plain) (a b w : Ptr) where
  shift_root :
      live s.allocated a ≡ true
      → s.parent a ≡ null
      → shift a w s ≡ reparent w null (record s { root = w })
  unfolding shift get_parent
  shift_root there e = ground arith

  shift_left_child :
      live s.allocated a ≡ true
      → s.parent a ≡ b
      → b ≢ null
      → live s.allocated b ≡ true
      → s.left b ≡ a
      → shift a w s ≡ reparent w b (record s { left = update s.left b w })
  unfolding shift get_parent get_left set_left
  shift_left_child there e ne up child = ground arith

  shift_right_child :
      live s.allocated a ≡ true
      → s.parent a ≡ b
      → b ≢ null
      → live s.allocated b ≡ true
      → s.left b ≢ a
      → shift a w s ≡ reparent w b (record s { right = update s.right b w })
  unfolding shift get_parent get_left set_right
  shift_right_child there e ne up other = ground arith

module _ {s : Store Plain} (a : Ptr) where
  shift-reparent :
      (h : Hole Plain) (w : Ptr)
      → Hangs null s h a
      → shift a w s ≡ reparent w (above null h) (hook s h w)
  shift-reparent top w at = shift_root s a null w at.there at.parent
  shift-reparent (on_left b d m up) w at =
      let n = at.up.0 in
      shift_left_child s a b w at.there at.parent (live-ne s.allocated b n.there) n.there n.left
  shift-reparent (on_right m b d up) w at =
      let n = at.up.0 in
      shift_right_child s a b w at.there at.parent (live-ne s.allocated b n.there) n.there (λ e.
        ptr-ne null a m (live-ne s.allocated a at.there) (omega (arith, at.apart)) (sym n.left ∙ e))

-- what `bst_shift` leaves behind, with `w` in the hole
abbrev pub Shifted : Store Plain → Hole Plain → Tree Plain → Unit {0} → Store Plain → Type 0
Shifted s h w _ s' =
    IsAt null s' h w
    × (s'.allocated ≡ s.allocated)
    × ((x : Ptr) → count_hole x h + count x w ≡ 0 → Same s s' x)

module _ (s : Store Plain) (h : Hole Plain) where
  shifted-Same :
      (w : Tree Plain) (x : Ptr) → count_hole x h + count x w ≡ 0 → Same s (shifted s h w) x
  shifted-Same leaf x out = hook-Same s h null x (omega arith)
  shifted-Same (node l b c r) x out =
      graft-Same null s h (node l b c r) x out
        (λ e. omega (arith, to_nat_self b, ap (λ y. to_nat (y == b)) e, out))

  shifted-allocated : (w : Tree Plain) → (shifted s h w).allocated ≡ s.allocated
  shifted-allocated leaf = refl
  shifted-allocated (node l b c r) = refl

  IsAt-shifted :
      (w : Tree Plain) (q p : Ptr)
      → IsRepHole null s q h
      → IsRep null s p w
      → ((x : Ptr) → count_hole x h + count x w ≤ 1)
      → count_hole null h + count null w ≡ 0
      → IsAt null (shifted s h w) h w
  IsAt-shifted leaf q p up d once absent =
      IsAt-hook null s h q up (λ x. omega (arith, once x)) (omega arith)
  IsAt-shifted (node l b c r) q p up d once absent =
      IsAt-graft null s h (node l b c r) q p up d once absent

module _ {s : Store Plain} (h : Hole Plain) where
  -- `bst_shift` puts the tree at `w` into the hole and touches no other node
  pub shift-Shifted :
      (a : Ptr) (w : Tree Plain) (p : Ptr)
      → Hangs null s h a
      → IsRep null s p w
      → ((x : Ptr) → count_hole x h + count x w ≤ 1)
      → count_hole null h + count null w ≡ 0
      → Returns (Shifted s h w) (shift a (ptr null w) s)
  shift-Shifted a w p at d once absent =
      of_eq tt (shifted s h w)
        (shift-reparent a h (ptr null w) at ∙ reparent_run s h w p d (omega (arith, absent)))
        (IsAt-shifted s h w a p at.up d once absent, shifted-allocated s h w, shifted-Same s h w)
