-- ===== src/Rb/Rotate/Rotated.antt =====
-- A rotation as a whole.
use dsa.Prelude.{
  ◌+◌, ◌≡◌, ◌≢◌, ◌==◌, to_nat, to_nat_eq, to_nat_self, refl, sym, ◌∙◌, ap, true, arith,
}
use dsa.Rb.Defs.{Red, Side, left, right, rotate}
use dsa.Rb.Sides.{branch, IsPivot, IsAt-IsPivot, inorder-turn}
use dsa.Store.Returns.{Returns, of_eq}
use dsa.Store.{Ptr, Store, ok, live}
use dsa.Tree.Distinct.{ptr-ne}
use dsa.Tree.Graft.{graft, graft-Same, IsAt-graft}
use dsa.Tree.Rep.{SameBelow, Same, IsAt}
use dsa.Tree.{Tree, Hole, ptr, count, count_hole, inorder}
use dsa.Rb.Rotate.{turned, rotate_run, final-turned}
use dsa.Tree.Frame.{Same-trans}
use dsa.Tree.Hook.{hook-Same}
use dsa.Rb.Rotate.Turned.{
  turned-SameBelow, turned-IsRep, ptr-live, a_ne_b, a_ne_nil, spare_part, up_turned, half-IsHung,
}

-- the store after a rotation, where `old` hung below the hole
pub record Rotated (nil : Ptr) (s : Store Red) (h : Hole Red) (old new : Tree Red) (s' : Store Red)
    : Type 0 where
  pub at : IsAt nil s' h new
  pub order : inorder new ≡ inorder old
  pub allocated : s'.allocated ≡ s.allocated
  pub colours : s'.rest ≡ s.rest
  pub same : (x : Ptr) → count_hole x h + count x old ≡ 0 → x ≢ nil → Same s s' x
  pub sentinel : SameBelow s s' nil

allocated-turned :
    (nil : Ptr) (s : Store Red) (h : Hole Red) (d : Side) (a b y : Ptr)
    → (turned nil s h d a b y).allocated ≡ s.allocated
allocated-turned nil s h left a b y = refl
allocated-turned nil s h right a b y = refl

rest-turned :
    (nil : Ptr) (s : Store Red) (h : Hole Red) (d : Side) (a b y : Ptr)
    → (turned nil s h d a b y).rest ≡ s.rest
rest-turned nil s h left a b y = refl
rest-turned nil s h right a b y = refl

-- how often a node occurs before and after
pub count_sides :
    (d : Side) (t₁ : Tree Red) (a : Ptr) (c : Red) (t₂ : Tree Red) (b : Ptr) (e : Red)
    (t₃ : Tree Red) (x : Ptr)
    → let n = to_nat (x == a) + to_nat (x == b) + (count x t₁ + count x t₂ + count x t₃) in
      (count x (branch d t₁ a c (branch d t₂ b e t₃)) ≡ n)
      × (count x (branch d (branch d t₁ a c t₂) b e t₃) ≡ n)
count_sides left t₁ a c t₂ b e t₃ x = (omega arith, omega arith)
count_sides right t₁ a c t₂ b e t₃ x = (omega arith, omega arith)

module _ (nil : Ptr) (s : Store Red) (h : Hole Red) (d : Side) (t₁ : Tree Red) (a : Ptr) (c : Red)
    (t₂ : Tree Red) (b : Ptr) (e : Red) (t₃ : Tree Red) where
  abbrev old_tree : Tree Red
  old_tree = branch d t₁ a c (branch d t₂ b e t₃)

  abbrev new_tree : Tree Red
  new_tree = branch d (branch d t₁ a c t₂) b e t₃

  module _ (v : IsPivot nil s h d t₁ a c t₂ b e t₃) where
    abbrev there_now : Store Red
    there_now = turned nil s h d a b (ptr nil t₂)

    outside :
        (x : Ptr)
        → count_hole x h + count x old_tree ≡ 0
        → x ≢ nil
        → Same s (graft nil there_now h new_tree) x
    outside x out ne =
        let parts = count_sides d t₁ a c t₂ b e t₃ x in
        Same-trans (spare_part d v x ne (omega (arith, out, parts.0))) (
          graft-Same nil there_now h new_tree x (omega (arith, out, parts.0, parts.1))
            (λ q. ptr-ne nil x new_tree ne (omega (arith, out, parts.0, parts.1)) (sym q)))

    sentinel_kept : SameBelow s (graft nil there_now h new_tree) nil
    sentinel_kept =
        let here_kept =
          turned-SameBelow nil s h d a b (ptr nil t₂) nil (λ q. a_ne_nil d v (sym q))
            (λ q. omega (arith, v.absent, to_nat_eq q)) in
        let hooked = (hook-Same there_now h (ptr nil new_tree) nil (omega (arith, v.absent))).0 in
        record {
          allocated = hooked.allocated ∙ here_kept.allocated;
          left = hooked.left ∙ here_kept.left;
          right = hooked.right ∙ here_kept.right;
          rest = hooked.rest ∙ here_kept.rest;
        }

    turned-Rotated : Rotated nil s h old_tree new_tree (graft nil there_now h new_tree)
    turned-Rotated =
        let parts = λ (x : Ptr). count_sides d t₁ a c t₂ b e t₃ x in
        record {
          at =
              IsAt-graft nil there_now h new_tree a (there_now.parent b) (up_turned d v)
                (turned-IsRep nil s h d t₁ a c t₂ b e t₃ v)
                (λ x. omega (arith, v.once x, (parts x).1))
                (omega (arith, v.absent, (parts nil).1));
          order = inorder-turn d t₁ a c t₂ b e t₃;
          allocated = allocated-turned nil s h d a b (ptr nil t₂);
          colours = rest-turned nil s h d a b (ptr nil t₂);
          same = outside;
          sentinel = sentinel_kept;
        }

  -- a rotation of a node whose child on the other side is not the sentinel returns without a fault;
  -- the child stands in its place with the node below it, on the side of the rotation; the nodes in
  -- order, the colours and all nodes outside are as before, and the sentinel but for its parent
  pub rotate-Rotated :
      live s.allocated nil ≡ true
      → IsAt nil s h (branch d t₁ a c (branch d t₂ b e t₃))
      → Returns
          (λ _ s'.
            Rotated nil s h
              (branch d t₁ a c (branch d t₂ b e t₃))
              (branch d (branch d t₁ a c t₂) b e t₃)
              s')
          (rotate d a s)
  rotate-Rotated there at =
      let v = IsAt-IsPivot nil s h d t₁ a c t₂ b e t₃ at in
      let y = ptr nil t₂ in
      let run =
        rotate_run nil s h d a b y v.there_a v.there_b (ptr-live nil b s t₂ there v.rep₂) v.far
          v.inner (half-IsHung d v) in
      let out_b : count_hole b h ≡ 0 = omega (arith, v.once b, to_nat_self b) in
      of_eq tt (graft nil (turned nil s h d a b y) h new_tree)
        (run
          ∙ ap (ok tt) (final-turned nil s h d a b y (branch d t₁ a c t₂) e t₃ (a_ne_b d v) out_b))
        (turned-Rotated v)
