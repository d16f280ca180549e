-- ===== src/Rb/Delete/Sibling.antt =====
-- One round of the loop of `rb_delete` on one side, at a sibling of either colour.
use dsa.Prelude.{
  ℕ, ◌+◌, ◌<◌, ◌≡◌, ◌⊎◌, inl, inr, refl, sym, ◌∙◌, ap, subst, Bool, true, false, ◌&&◌, arith,
}
use dsa.Rb.Below.{Held-near, Held-far, joint, far-Change}
use dsa.Rb.Change.{Held, Change, Change-refl, Change-trans, Change-plug, paint, rotate-Change}
use dsa.Rb.Colours.{
  red_root, red_above, weight, IsRb, IsRbHole, IsRb-parts, IsRbHole-eq, IsRb-eq, IsRbStep,
}
use dsa.Rb.Defs.{Red, Side, left, right, other}
use dsa.Rb.Delete.Black.{lift_black-Outcome}
use dsa.Rb.Delete.Round.{Short, Outcome}
use dsa.Rb.Delete.{blacken, lift_side}
use dsa.Tree.Levels.{depth}
use dsa.Rb.Sides.{branch, get_child-ok}
use dsa.Rb.Steps.{step, ptr-branch, plug-step}
use dsa.Store.Access.{get_rest-ok}
use dsa.Store.Returns.{Returns, bind, mono, of_eq}
use dsa.Store.{Ptr, Store, ok, get_rest}
use dsa.Tree.{Tree, leaf, node, Hole, top, ptr, above, plug}

-- What a round does to a whole tree, where the extra black was `deep` nodes down: it goes up, or its carrier is red
-- from then on, or the loop is left and the colours are in order.
pub record Lifted (nil : Ptr) (s : Store Red) (old : Tree Red) (deep : ℕ) (r : Ptr × Bool)
    (s' : Store Red) : Type 0 where
  pub hole : Hole Red
  pub tree : Tree Red
  pub change : Change nil s top old (plug hole tree) s'
  pub held : Held nil s' hole tree
  pub height : ℕ
  pub next :
      ((r ≡ (ptr nil tree, false))
        × (s'.parent (ptr nil tree) ≡ above nil hole)
        × IsRbHole (1 + height) hole
        × Short height tree
        × ((depth hole < deep) ⊎ (red_root tree ≡ true)))
      ⊎ ((r.1 ≡ true)
          × IsRbHole height hole
          × IsRb height tree
          × ((red_root tree && red_above hole) ≡ false)
          × (get_rest r.0 s' ≡ ok false s'))

IsRbHole-step :
    (d : Side) (n : ℕ) (b : Ptr) (sib : Tree Red) (up : Hole Red)
    → IsRb n sib
    → IsRbHole (1 + n) up
    → IsRbHole n (step d b false sib up)
IsRbHole-step left n b sib up rb hole = (refl, rb, refl, hole)
IsRbHole-step right n b sib up rb hole = (refl, rb, refl, hole)

red_above-step :
    (d : Side) (b : Ptr) (sib : Tree Red) (up : Hole Red)
    → red_above (step d b false sib up) ≡ false
red_above-step left b sib up = refl
red_above-step right b sib up = refl

-- a round at a black sibling, after a change of the whole tree
Outcome-Lifted :
    {nil : Ptr} {s u s' : Store Red} (whole : Tree Red) (deep : ℕ) (up : Hole Red) (old : Tree Red)
    (c : Red) (n : ℕ) (r : Ptr × Bool)
    → Change nil s top whole (plug up old) u
    → IsRbHole (weight c + (1 + n)) up
    → (c && red_above up) ≡ false
    → (depth up < deep) ⊎ (c ≡ true)
    → Outcome nil u up old c n r s'
    → Lifted nil s whole deep r s'
Outcome-Lifted whole deep up old c n r ch hole calm less o = elim o.next [
  | inl (r≡, parent, short) ↦ record {
    hole = up;
    tree = o.tree;
    change = Change-trans ch (Change-plug up old o.tree o.change);
    held = o.change.held;
    height = weight c + n;
    next = inl (
      r≡,
      parent,
      IsRbHole-eq up (omega arith) hole,
      short,
      elim less [ inl l ↦ inl l | inr e ↦ inr (o.head ∙ e) ],
    );
  }
  | inr (left_loop, rb, read) ↦ record {
    hole = up;
    tree = o.tree;
    change = Change-trans ch (Change-plug up old o.tree o.change);
    held = o.change.held;
    height = weight c + (1 + n);
    next = inr (left_loop, hole, rb, rw o.head calm, read);
  }
]

module _ {nil : Ptr} (s : Store Red) (up : Hole Red) (t : Tree Red) (p : Ptr) (n : ℕ) where
  -- the first case of the round: a red sibling, below a black parent
  blacken-red :
      (d : Side) (s₁ : Tree Red) (b : Ptr) (s₂ : Tree Red)
      → Held nil s up (branch d t p false (branch d s₁ b true s₂))
      → Returns
          (λ y s'.
            Change nil s up
              (branch d t p false (branch d s₁ b true s₂))
              (branch d (branch d t p true s₁) b false s₂)
              s'
            × (y ≡ ptr nil s₁))
          (blacken d p b s)
  unfolding blacken
  blacken-red d s₁ b s₂ held =
      let h = Held-far d p false up t (branch d s₁ b true s₂) held in
      let k = joint d b true (step (other d) p false t up) s₁ s₂ h in
      let sib = branch d s₁ b false s₂ in
      rw (get_rest-ok s b k.there, k.rest)
        (bind
          (far-Change d p false up t (branch d s₁ b true s₂) sib
            (paint s (step (other d) p false t up) d s₁ b true false s₂ h))
          λ _ u₁ c₁. bind (paint u₁ up d t p false true sib c₁.held) λ _ u₂ c₂.
            bind (rotate-Change u₂ up d t p true s₁ b false s₂ c₂.held) λ _ u₃ c₃.
              let j =
                joint d p true (step d b false s₂ up) t s₁
                  (Held-near d b false up (branch d t p true s₁) s₂ c₃.held) in
              of_eq (ptr nil s₁) u₃ (get_child-ok (other d) u₃ p j.there ∙ ap (λ y. ok y u₃) j.far)
                (Change-trans c₁ (Change-trans c₂ c₃), refl))

  blacken-black :
      (d : Side) (c : Red) (s₁ : Tree Red) (b : Ptr) (s₂ : Tree Red)
      → Held nil s up (branch d t p c (branch d s₁ b false s₂))
      → blacken d p b s ≡ ok b s
  unfolding blacken
  blacken-black d c s₁ b s₂ held =
      let k =
        joint d b false (step (other d) p c t up) s₁ s₂
          (Held-far d p c up t (branch d s₁ b false s₂) held) in
      rw (get_rest-ok s b k.there, k.rest) refl

  module _ (black : red_root t ≡ false) (rb : IsRb n t) where
    side_black :
        (d : Side) (c : Red) (s₁ : Tree Red) (b : Ptr) (s₂ : Tree Red)
        → Held nil s up (branch d t p c (branch d s₁ b false s₂))
        → IsRbStep (1 + n) c (branch d s₁ b false s₂) up
        → Returns
            (Lifted nil s (plug up (branch d t p c (branch d s₁ b false s₂))) (1 + depth up))
            (lift_side d (ptr nil t) p s)
    unfolding lift_side
    side_black d c s₁ b s₂ held around =
        let old = branch d t p c (branch d s₁ b false s₂) in
        let j = joint d p c up t (branch d s₁ b false s₂) held in
        let k = IsRb-parts d (1 + n) s₁ b false s₂ around.sibling in
        let e : n ≡ k.below = omega (arith, k.height) in
        rw
          (
            get_child-ok (other d) s p j.there,
            j.far,
            ptr-branch d nil s₁ b false s₂,
            blacken-black d c s₁ b s₂ held,
          )
          (mono
            (lift_black-Outcome s up t p c n black rb d s₁ b s₂ (IsRb-eq s₁ (sym e) k.near)
              (IsRb-eq s₂ (sym e) k.far) held)
            λ r s' o.
              Outcome-Lifted (plug up old) (1 + depth up) up old c n r
                (Change-plug up old old (Change-refl held)) around.rest around.calm_above
                (inl (omega arith)) o)

    side_red :
        (d : Side) (u₁ : Tree Red) (q : Ptr) (u₂ : Tree Red) (b : Ptr) (s₂ : Tree Red)
        → Held nil s up (branch d t p false (branch d (branch d u₁ q false u₂) b true s₂))
        → IsRbStep (1 + n) false (branch d (branch d u₁ q false u₂) b true s₂) up
        → Returns
            (Lifted nil s
              (plug up (branch d t p false (branch d (branch d u₁ q false u₂) b true s₂)))
              (1 + depth up))
            (lift_side d (ptr nil t) p s)
    unfolding lift_side
    side_red d u₁ q u₂ b s₂ held around =
        let s₁ = branch d u₁ q false u₂ in
        let old = branch d t p false (branch d s₁ b true s₂) in
        let up' = step d b false s₂ up in
        let mid = branch d t p true s₁ in
        let j = joint d p false up t (branch d s₁ b true s₂) held in
        let k = IsRb-parts d (1 + n) s₁ b true s₂ around.sibling in
        let m = IsRb-parts d k.below u₁ q false u₂ k.near in
        let e : m.below ≡ n = omega (arith, k.height, m.height) in
        rw (get_child-ok (other d) s p j.there, j.far, ptr-branch d nil s₁ b true s₂)
          (bind (blacken-red d s₁ b s₂ held) λ y s' (ch, y≡).
            rw (y≡, ptr-branch d nil u₁ q false u₂)
              (mono
                (lift_black-Outcome s' up' t p true n black rb d u₁ q u₂ (IsRb-eq u₁ e m.near)
                  (IsRb-eq u₂ e m.far) (Held-near d b false up mid s₂ ch.held))
                λ r s'' o.
                  Outcome-Lifted (plug up old) (1 + depth up) up' mid true n r
                    (subst (λ z. Change nil s top (plug up old) z s')
                      (sym (plug-step d b false s₂ up mid))
                      (Change-plug up old (branch d mid b false s₂) ch))
                    (IsRbHole-eq up' (omega arith) (
                      IsRbHole-step d (1 + n) b s₂ up (IsRb-eq s₂ (omega (arith, k.height)) k.far)
                        around.rest))
                    (red_above-step d b s₂ up) (inr refl) o))

  pub lift_side-Lifted :
      (d : Side) (c : Red) (sib : Tree Red)
      → red_root t ≡ false
      → IsRb n t
      → Held nil s up (branch d t p c sib)
      → IsRbStep (1 + n) c sib up
      → Returns
          (Lifted nil s (plug up (branch d t p c sib)) (1 + depth up))
          (lift_side d (ptr nil t) p s)
  lift_side-Lifted d c leaf black rb held around = absurd (omega (arith, around.sibling))
  lift_side-Lifted left c (node l b false r) black rb held around =
      side_black black rb left c l b r held around
  lift_side-Lifted right c (node l b false r) black rb held around =
      side_black black rb right c r b l held around
  lift_side-Lifted d true (node l b true r) black rb held around = let bad = around.calm in cc
  lift_side-Lifted left false (node leaf b true r) black rb held around =
      let (m, e, _, _, low, _) = around.sibling in absurd (omega (arith, low))
  lift_side-Lifted left false (node (node u q true v) b true r) black rb held around =
      let (m, e, bad, _, _, _) = around.sibling in cc
  lift_side-Lifted left false (node (node u q false v) b true r) black rb held around =
      side_red black rb left u q v b r held around
  lift_side-Lifted right false (node l b true leaf) black rb held around =
      let (m, e, _, _, _, low) = around.sibling in absurd (omega (arith, low))
  lift_side-Lifted right false (node l b true (node u q true v)) black rb held around =
      let (m, e, _, bad, _, _) = around.sibling in cc
  lift_side-Lifted right false (node l b true (node u q false v)) black rb held around =
      side_red black rb right v q u b l held around
