-- ===== src/Rb/Insert/Round.antt =====
-- The cases of one round together, with what each does to the colours.
use dsa.Prelude.{ℕ, ◌+◌, ◌≡◌, ◌⊎◌, inl, inr, refl, sym, subst, ◌∙◌, true, false, ==_refl, arith}
use dsa.Rb.Below.{above-step, Held-near, joint, heads-ne}
use dsa.Rb.Change.{Held, Change}
use dsa.Rb.Colours.{
  red_root, IsRb, IsRbHole, IsRb-parts, IsRb-branch, red_root-branch, IsRbHole-parts, IsRb-eq,
  IsRbHole-eq,
}
use dsa.Rb.Defs.{Red, Side, left, right, other}
use dsa.Rb.Insert.Repair.{AtRest, repair_side-red, repair_side-outer, repair_side-inner}
use dsa.Rb.Insert.{repair_side, repair}
use dsa.Rb.Sides.{branch}
use dsa.Rb.Steps.{step, ptr-branch}
use dsa.Store.Access.{get_parent-ok, get_left-ok}
use dsa.Store.Returns.{Returns, mono}
use dsa.Store.{Ptr, Store, live}
use dsa.Tree.{Tree, leaf, node, Hole, ptr, above}
use dsa.Tree.Rep.{IsRep}

-- After a round either the conflict has moved up to the head of the tree in the hole, or there is none.
pub record Rounded (nil : Ptr) (s : Store Red) (up : Hole Red) (old : Tree Red) (n : ℕ) (y : Ptr)
    (s' : Store Red) : Type 0 where
  pub tree : Tree Red
  pub change : Change nil s up old tree s'
  pub coloured : IsRb (1 + n) tree
  pub next : ((red_root tree ≡ true) × (y ≡ ptr nil tree)) ⊎ ((red_root tree ≡ false) × AtRest s' y)

-- three black heads, one black node above two trees
settled-IsRb :
    (d : Side) (n : ℕ) (w f uncle : Tree Red) (q g : Ptr)
    → IsRb n w
    → red_root f ≡ false
    → IsRb n f
    → red_root uncle ≡ false
    → IsRb n uncle
    → IsRb (1 + n) (branch d w q false (branch d f g true uncle))
settled-IsRb d n w f uncle q g rb_w black_f rb_f black_u rb_u =
    IsRb-branch d n (1 + n) w q false (branch d f g true uncle) refl refl refl rb_w
      (IsRb-branch d n n f g true uncle (omega arith) black_f black_u rb_f rb_u)

module _ {nil : Ptr} (s : Store Red) (up : Hole Red) (n : ℕ) (p g : Ptr) (sib : Tree Red)
    (l : Tree Red) (x : Ptr) (r : Tree Red) where
  module _ (d e : Side) (uncle : Tree Red)
      (held : Held nil s up (branch d (branch e (node l x true r) p true sib) g false uncle)) where
    abbrev lowest :
        IsRep nil s (above nil (step e p true sib (step d g false uncle up))) (node l x true r)
    lowest =
        (Held-near e p true (step d g false uncle up) (node l x true r) sib
          (Held-near d g false up (branch e (node l x true r) p true sib) uncle held)).at.down

    below_live : live s.allocated x ≡ true
    below_live = lowest.0.there

    below_parent : s.parent x ≡ p
    below_parent = lowest.0.parent ∙ above-step e nil p true sib (step d g false uncle up)

  -- the choice between the two halves of the loop
  repair-side :
      (d e : Side) (uncle : Tree Red)
      → Held nil s up (branch d (branch e (node l x true r) p true sib) g false uncle)
      → repair x s ≡ repair_side d x p g s
  unfolding repair
  repair-side left e uncle held =
      let w = branch e (node l x true r) p true sib in
      let h = Held-near left g false up w uncle held in
      let k = joint e p true (step left g false uncle up) (node l x true r) sib h in
      let j = joint left g false up w uncle held in
      rw
        (
          get_parent-ok s x (below_live left e uncle held),
          below_parent left e uncle held,
          get_parent-ok s p k.there,
          k.parent,
          get_left-ok s g j.there,
          j.near,
          ptr-branch e nil (node l x true r) p true sib,
          ==_refl p,
        )
        refl
  repair-side right e uncle held =
      let w = branch e (node l x true r) p true sib in
      let h = Held-near right g false up w uncle held in
      let k = joint e p true (step right g false uncle up) (node l x true r) sib h in
      let j = joint right g false up w uncle held in
      rw
        (
          get_parent-ok s x (below_live right e uncle held),
          below_parent right e uncle held,
          get_parent-ok s p k.there,
          k.parent,
          get_left-ok s g j.there,
          j.far,
          heads-ne right e (node l x true r) p true sib g false uncle up held,
        )
        (rw (get_left-ok s g j.there, j.far) refl)

  round_red :
      (d e : Side) (ul : Tree Red) (u : Ptr) (ur : Tree Red)
      → Held nil s up (branch d (branch e (node l x true r) p true sib) g false (node ul u true ur))
      → IsRbHole n (step e p true sib (step d g false (node ul u true ur) up))
      → IsRb n (node l x true r)
      → Returns
          (Rounded nil s up
            (branch d (branch e (node l x true r) p true sib) g false (node ul u true ur))
            n)
          (repair_side d x p g s)
  round_red d e ul u ur held hole rb =
      let t = node l x true r in
      let uncle = node ul u true ur in
      let low = IsRbHole-parts e n p true sib (step d g false uncle up) hole in
      let high =
        IsRbHole-parts d n g false uncle up
          (IsRbHole-eq (step d g false uncle up) (omega arith) low.rest) in
      let (m, h, cl, cr, rb_l, rb_r) = high.sibling in
      mono (repair_side-red s up d p g e t sib x ul u ur held) λ y s' (c, y≡g). record {
        tree = branch d (branch e t p false sib) g true (node ul u false ur);
        change = c;
        coloured =
            IsRb-branch d (1 + n) (1 + n) (branch e t p false sib) g true (node ul u false ur)
              (omega arith) (red_root-branch e t p false sib) refl
              (IsRb-branch e n (1 + n) t p false sib refl refl refl rb low.sibling)
              (n, refl, refl, refl, IsRb-eq ul (omega arith) rb_l, IsRb-eq ur (omega arith) rb_r);
        next = inl (
          red_root-branch d (branch e t p false sib) g true (node ul u false ur),
          y≡g ∙ sym (ptr-branch d nil (branch e t p false sib) g true (node ul u false ur)),
        );
      }

  module _ (uncle : Tree Red) (black : red_root uncle ≡ false) where
    round_outer :
        (d : Side)
        → Held nil s up (branch d (branch d (node l x true r) p true sib) g false uncle)
        → IsRbHole n (step d p true sib (step d g false uncle up))
        → IsRb n (node l x true r)
        → Returns
            (Rounded nil s up (branch d (branch d (node l x true r) p true sib) g false uncle) n)
            (repair_side d x p g s)
    round_outer d held hole rb =
        let t = node l x true r in
        let low = IsRbHole-parts d n p true sib (step d g false uncle up) hole in
        let high =
          IsRbHole-parts d n g false uncle up
            (IsRbHole-eq (step d g false uncle up) (omega arith) low.rest) in
        mono (repair_side-outer s up d p g uncle black sib x left l r held) λ y s' (c, e, rest).
          record {
            tree = branch d t p false (branch d sib g true uncle);
            change = c;
            coloured = settled-IsRb d n t sib uncle p g rb low.calm low.sibling black high.sibling;
            next = inr (
              red_root-branch d t p false (branch d sib g true uncle),
              subst (AtRest s') (sym e) rest,
            );
          }

    round_inner :
        (d : Side) (t₁ t₂ : Tree Red)
        → Held nil s up (branch d (branch d sib p true (branch d t₁ x true t₂)) g false uncle)
        → IsRbHole n (step (other d) p true sib (step d g false uncle up))
        → IsRb n (branch d t₁ x true t₂)
        → Returns
            (Rounded nil s up
              (branch d (branch d sib p true (branch d t₁ x true t₂)) g false uncle)
              n)
            (repair_side d x p g s)
    round_inner d t₁ t₂ held hole rb =
        let low = IsRbHole-parts (other d) n p true sib (step d g false uncle up) hole in
        let high =
          IsRbHole-parts d n g false uncle up
            (IsRbHole-eq (step d g false uncle up) (omega arith) low.rest) in
        let own = IsRb-parts d n t₁ x true t₂ rb in
        let eq : own.below ≡ n = omega (arith, own.height) in
        let w = branch d sib p true t₁ in
        mono (repair_side-inner s up d p g uncle black sib x t₁ t₂ held) λ y s' (c, e, rest).
          record {
            tree = branch d w x false (branch d t₂ g true uncle);
            change = c;
            coloured =
                settled-IsRb d n w t₂ uncle x g
                  (IsRb-branch d n n sib p true t₁ (omega arith) low.calm own.calm_near low.sibling
                    (IsRb-eq t₁ eq own.near))
                  own.calm_far (IsRb-eq t₂ eq own.far) black high.sibling;
            next = inr (
              red_root-branch d w x false (branch d t₂ g true uncle),
              subst (AtRest s') (sym e) rest,
            );
          }

    round_black :
        (d e : Side)
        → Held nil s up (branch d (branch e (node l x true r) p true sib) g false uncle)
        → IsRbHole n (step e p true sib (step d g false uncle up))
        → IsRb n (node l x true r)
        → Returns
            (Rounded nil s up (branch d (branch e (node l x true r) p true sib) g false uncle) n)
            (repair_side d x p g s)
    round_black left left held hole rb = round_outer left held hole rb
    round_black right right held hole rb = round_outer right held hole rb
    round_black left right held hole rb = round_inner left l r held hole rb
    round_black right left held hole (m, e, p₁, p₂, q₁, q₂) =
        round_inner right r l held hole (m, e, p₁, p₂, q₁, q₂)

  round_side :
      (d e : Side) (uncle : Tree Red)
      → Held nil s up (branch d (branch e (node l x true r) p true sib) g false uncle)
      → IsRbHole n (step e p true sib (step d g false uncle up))
      → IsRb n (node l x true r)
      → Returns
          (Rounded nil s up (branch d (branch e (node l x true r) p true sib) g false uncle) n)
          (repair_side d x p g s)
  round_side d e leaf held hole rb = round_black leaf refl d e held hole rb
  round_side d e (node ul u false ur) held hole rb =
      round_black (node ul u false ur) refl d e held hole rb
  round_side d e (node ul u true ur) held hole rb = round_red d e ul u ur held hole rb

  -- one round, with whichever half of the loop
  pub repair-Rounded :
      (d e : Side) (uncle : Tree Red)
      → Held nil s up (branch d (branch e (node l x true r) p true sib) g false uncle)
      → IsRbHole n (step e p true sib (step d g false uncle up))
      → IsRb n (node l x true r)
      → Returns
          (Rounded nil s up (branch d (branch e (node l x true r) p true sib) g false uncle) n)
          (repair x s)
  repair-Rounded d e uncle held hole rb =
      rw (repair-side d e uncle held) (round_side d e uncle held hole rb)
