-- ===== src/Rb/Insert/Repair.antt =====
-- One round of the loop that restores the colours in `rb_insert`.
use dsa.Prelude.{◌≡◌, refl, ◌∙◌, ap, true, false, ==_refl}
use dsa.Rb.Below.{
  above-step, root_colour, Held-near, joint, near-Change, Held-far, far-Change, heads-ne,
}
use dsa.Rb.Change.{Held, Change, Change-trans, paint, rotate-Change, rotate_back-Change}
use dsa.Rb.Colours.{red_root}
use dsa.Rb.Defs.{Red, Side, left, other, rotate}
use dsa.Rb.Sides.{branch, get_child-ok}
use dsa.Rb.Steps.{step, ptr-branch}
use dsa.Store.Access.{get_parent-ok, get_rest-ok}
use dsa.Store.Returns.{Returns, returns, bind, mono}
use dsa.Store.{Ptr, Store, ok, Cmd, pure, ◌>>=◌, ◌>>◌, live, get_parent, get_rest, set_rest}
use dsa.Tree.{Tree, node, Hole, ptr, above}
use dsa.Rb.Insert.{repair_side}

-- the loop is at its end: the node's parent is there, and black
pub record AtRest (s : Store Red) (x : Ptr) : Type 0 where
  pub there : live s.allocated x ≡ true
  pub above : live s.allocated (s.parent x) ≡ true
  pub black : s.rest (s.parent x) ≡ false

-- the last statements: `q` becomes black and takes the place of the grandparent
abbrev settle : Side → (y g : Ptr) → Cmd Red Ptr
settle d y g = do p ← get_parent y; set_rest p false; set_rest g true; rotate (other d) g; pure y

module _ {nil : Ptr} (s : Store Red) (up : Hole Red) (d : Side) where
  AtRest-branch :
      (b : Side) (b₁ : Tree Red) (y : Ptr) (c : Red) (b₂ : Tree Red) (q : Ptr) (w : Tree Red)
      → Held nil s up (branch d (branch b b₁ y c b₂) q false w)
      → AtRest s y
  AtRest-branch b b₁ y c b₂ q w held =
      let top_joint = joint d q false up (branch b b₁ y c b₂) w held in
      let low_joint =
        joint b y c (step d q false w up) b₁ b₂
          (Held-near d q false up (branch b b₁ y c b₂) w held) in
      let e : s.parent y ≡ q = low_joint.parent ∙ above-step d nil q false w up in
      record { there = low_joint.there; above = rw e top_joint.there; black = rw e top_joint.rest }

module _ {nil : Ptr} (s : Store Red) (up : Hole Red) (d : Side) (g : Ptr) (uncle : Tree Red) where
  settle-Change :
      (b : Side) (b₁ : Tree Red) (y : Ptr) (c : Red) (b₂ : Tree Red) (q : Ptr) (f : Tree Red)
      → Held nil s up (branch d (branch d (branch b b₁ y c b₂) q true f) g false uncle)
      → Returns
          (λ y' s'.
            Change nil s up
              (branch d (branch d (branch b b₁ y c b₂) q true f) g false uncle)
              (branch d (branch b b₁ y c b₂) q false (branch d f g true uncle))
              s'
            × (y' ≡ y)
            × AtRest s' y)
          (settle d y g s)
  settle-Change b b₁ y c b₂ q f held =
      let w = branch b b₁ y c b₂ in
      let h₁ = Held-near d g false up (branch d w q true f) uncle held in
      let h₂ = Held-near d q true (step d g false uncle up) w f h₁ in
      let j = joint b y c (step d q true f (step d g false uncle up)) b₁ b₂ h₂ in
      rw (get_parent-ok s y j.there, j.parent, above-step d nil q true f (step d g false uncle up))
        (bind
          (near-Change d g false up (branch d w q true f) (branch d w q false f) uncle
            (paint s (step d g false uncle up) d w q true false f h₁))
          λ _ s₁ c₁.
            bind (paint s₁ up d (branch d w q false f) g false true uncle c₁.held) λ _ s₂ c₂.
              bind (rotate_back-Change s₂ up d w q false f g true uncle c₂.held) λ _ s₃ c₃.
                returns (
                  Change-trans c₁ (Change-trans c₂ c₃),
                  refl,
                  AtRest-branch s₃ up d b b₁ y c b₂ q (branch d f g true uncle) c₃.held,
                ))

module _ {nil : Ptr} (s : Store Red) (up : Hole Red) (d : Side) (p g : Ptr) where
  -- the uncle is red: three colours are exchanged
  pub repair_side-red :
      (e : Side) (t sib : Tree Red) (x : Ptr) (ul : Tree Red) (u : Ptr) (ur : Tree Red)
      → Held nil s up (branch d (branch e t p true sib) g false (node ul u true ur))
      → Returns
          (λ y s'.
            Change nil s up
              (branch d (branch e t p true sib) g false (node ul u true ur))
              (branch d (branch e t p false sib) g true (node ul u false ur))
              s'
            × (y ≡ g))
          (repair_side d x p g s)
  unfolding repair_side
  repair_side-red e t sib x ul u ur held =
      let uncle = node ul u true ur in
      let j = joint d g false up (branch e t p true sib) uncle held in
      let n = (Held-far d g false up (branch e t p true sib) uncle held).at.down.0 in
      rw (get_child-ok (other d) s g j.there, j.far, get_rest-ok s u n.there, n.rest)
        (bind
          (near-Change d g false up (branch e t p true sib) (branch e t p false sib) uncle (
            paint s (step d g false uncle up) e t p true false sib
              (Held-near d g false up (branch e t p true sib) uncle held)))
          λ _ s₁ c₁.
            bind
              (far-Change d g false up (branch e t p false sib) uncle (node ul u false ur) (
                paint s₁ (step (other d) g false (branch e t p false sib) up) left ul u true false
                  ur (Held-far d g false up (branch e t p false sib) uncle c₁.held)))
              λ _ s₂ c₂.
                bind
                  (paint s₂ up d (branch e t p false sib) g false true (node ul u false ur) c₂.held)
                  λ _ s₃ c₃. returns (Change-trans c₁ (Change-trans c₂ c₃), refl))

  module _ (uncle : Tree Red) (black : red_root uncle ≡ false) (sib : Tree Red) (x : Ptr) where
    -- the colour of the uncle as the code reads it
    uncle_read :
        (w : Tree Red)
        → Held nil s up (branch d w g false uncle)
        → get_rest (ptr nil uncle) s ≡ ok false s
    uncle_read w held =
        root_colour (above nil (step (other d) g false w up)) uncle held.sentinel
          (Held-far d g false up w uncle held).at.down
        ∙ ap (λ c. ok c s) black

    -- the uncle is black and the node an outer grandchild
    pub repair_side-outer :
        (b : Side) (t₁ t₂ : Tree Red)
        → Held nil s up (branch d (branch d (branch b t₁ x true t₂) p true sib) g false uncle)
        → Returns
            (λ y s'.
              Change nil s up
                (branch d (branch d (branch b t₁ x true t₂) p true sib) g false uncle)
                (branch d (branch b t₁ x true t₂) p false (branch d sib g true uncle))
                s'
              × (y ≡ x)
              × AtRest s' x)
            (repair_side d x p g s)
    unfolding repair_side
    repair_side-outer b t₁ t₂ held =
        let t = branch b t₁ x true t₂ in
        let w = branch d t p true sib in
        let j = joint d g false up w uncle held in
        let h = Held-near d g false up w uncle held in
        let k = joint d p true (step d g false uncle up) t sib h in
        rw
          (
            get_child-ok (other d) s g j.there,
            j.far,
            uncle_read w held,
            get_child-ok (other d) s p k.there,
            k.far,
            heads-ne d b t₁ x true t₂ p true sib (step d g false uncle up) h,
          )
          (settle-Change s up d g uncle b t₁ x true t₂ p sib held)

    -- the uncle is black and the node an inner grandchild
    pub repair_side-inner :
        (t₁ t₂ : Tree Red)
        → Held nil s up (branch d (branch d sib p true (branch d t₁ x true t₂)) g false uncle)
        → Returns
            (λ y s'.
              Change nil s up
                (branch d (branch d sib p true (branch d t₁ x true t₂)) g false uncle)
                (branch d (branch d sib p true t₁) x false (branch d t₂ g true uncle))
                s'
              × (y ≡ p)
              × AtRest s' p)
            (repair_side d x p g s)
    unfolding repair_side
    repair_side-inner t₁ t₂ held =
        let t = branch d t₁ x true t₂ in
        let w = branch d sib p true t in
        let j = joint d g false up w uncle held in
        let h = Held-near d g false up w uncle held in
        let k = joint d p true (step d g false uncle up) sib t h in
        rw
          (
            get_child-ok (other d) s g j.there,
            j.far,
            uncle_read w held,
            get_child-ok (other d) s p k.there,
            k.far,
            ptr-branch d nil t₁ x true t₂,
            ==_refl x,
          )
          (bind
            {P = λ y s'.
              (y ≡ p)
              × Change nil s up (branch d w g false uncle)
                  (branch d (branch d (branch d sib p true t₁) x true t₂) g false uncle) s'}
            (bind
              (near-Change d g false up w (branch d (branch d sib p true t₁) x true t₂) uncle
                (rotate-Change s (step d g false uncle up) d sib p true t₁ x true t₂ h))
              λ _ s₁ c₁. returns (refl, c₁))
            λ y s₁ (e, c₁). rw e (
              mono (settle-Change s₁ up d g uncle d sib p true t₁ x t₂ c₁.held)
                λ _ s₂ (c₂, e₂, rest). (Change-trans c₁ c₂, e₂, rest)))
