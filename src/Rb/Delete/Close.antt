-- ===== src/Rb/Delete/Close.antt =====
-- The last case of the loop of `rb_delete`: a red nephew on the outer side, and the loop is left.
use dsa.Prelude.{◌≡◌, refl, ◌∙◌, ap, Bool, true, false}
use dsa.Rb.Below.{Held-near, Held-far, joint, near-Change, far-Change, root_colour}
use dsa.Rb.Change.{Held, Change, Change-trans, paint, rotate-Change, rotate_back-Change}
use dsa.Rb.Colours.{red_root}
use dsa.Rb.Defs.{Red, Side, left, other, get_child, rotate}
use dsa.Rb.Delete.{turn_out}
use dsa.Rb.Sides.{branch, get_child-ok}
use dsa.Rb.Steps.{step, ptr-branch}
use dsa.Store.Access.{get_rest-ok}
use dsa.Store.Returns.{Returns, returns, bind, of_eq}
use dsa.Store.{Ptr, Store, ok, Cmd, pure, ◌>>=◌, ◌>>◌, get_rest, set_rest}
use dsa.Tree.{Tree, node, Hole, above}

-- the statements from the last case to the `break`
abbrev pub close : Side → (extra parent last : Ptr) → Cmd Red (Ptr × Bool)
close d extra parent last = do
  red ← get_rest parent
  set_rest last red
  set_rest parent false
  outer ← get_child (other d) last
  set_rest outer false
  rotate d parent
  pure (extra, true)

module _ {nil : Ptr} (s : Store Red) (up : Hole Red) (d : Side) (t : Tree Red) (p : Ptr)
    (c : Red) where
  pub close-Change :
      (s₁ : Tree Red) (q : Ptr) (ol : Tree Red) (o : Ptr) (or : Tree Red) (extra : Ptr)
      → Held nil s up (branch d t p c (branch d s₁ q false (node ol o true or)))
      → Returns
          (λ r s'.
            Change nil s up
              (branch d t p c (branch d s₁ q false (node ol o true or)))
              (branch d (branch d t p false s₁) q c (node ol o false or))
              s'
            × (r ≡ (extra, true)))
          (close d extra p q s)
  close-Change s₁ q ol o or extra held =
      let s₂ = node ol o true or in
      let s₂' = node ol o false or in
      let j = joint d p c up t (branch d s₁ q false s₂) held in
      let below = λ (e : Red). branch d s₁ q e s₂ in
      rw (get_rest-ok s p j.there, j.rest)
        (bind
          (far-Change d p c up t (below false) (below c) (
            paint s (step (other d) p c t up) d s₁ q false c s₂
              (Held-far d p c up t (below false) held)))
          λ _ u₁ c₁. bind (paint u₁ up d t p c false (below c) c₁.held) λ _ u₂ c₂.
            let h = Held-far d p false up t (below c) c₂.held in
            let k = joint d q c (step (other d) p false t up) s₁ s₂ h in
            rw (get_child-ok (other d) u₂ q k.there, k.far)
              (bind
                (far-Change d p false up t (below c) (branch d s₁ q c s₂') (
                  far-Change d q c (step (other d) p false t up) s₁ s₂ s₂' (
                    paint u₂ (step (other d) q c s₁ (step (other d) p false t up)) left ol o true
                      false or (Held-far d q c (step (other d) p false t up) s₁ s₂ h))))
                λ _ u₃ c₃. bind (rotate-Change u₃ up d t p false s₁ q c s₂' c₃.held) λ _ u₄ c₄.
                  returns (Change-trans c₁ (Change-trans c₂ (Change-trans c₃ c₄)), refl)))

module _ {nil : Ptr} (s : Store Red) (up : Hole Red) (d : Side) (t : Tree Red) (p : Ptr)
    (c : Red) where
  -- the outer nephew is red
  pub turn_out-red :
      (s₁ : Tree Red) (b : Ptr) (ol : Tree Red) (o : Ptr) (or : Tree Red)
      → Held nil s up (branch d t p c (branch d s₁ b false (node ol o true or)))
      → turn_out d p b s ≡ ok b s
  unfolding turn_out
  turn_out-red s₁ b ol o or held =
      let s₂ = node ol o true or in
      let h = Held-far d p c up t (branch d s₁ b false s₂) held in
      let k = joint d b false (step (other d) p c t up) s₁ s₂ h in
      let n = (Held-far d b false (step (other d) p c t up) s₁ s₂ h).at.down.0 in
      rw (get_child-ok (other d) s b k.there, k.far, get_rest-ok s o n.there, n.rest) refl

  -- the outer nephew is black and the inner one red: a rotation exchanges them
  pub turn_out-black :
      (u₁ : Tree Red) (q : Ptr) (u₂ : Tree Red) (b : Ptr) (s₂ : Tree Red)
      → red_root s₂ ≡ false
      → Held nil s up (branch d t p c (branch d (branch d u₁ q true u₂) b false s₂))
      → Returns
          (λ y s'.
            Change nil s up
              (branch d t p c (branch d (branch d u₁ q true u₂) b false s₂))
              (branch d t p c (branch d u₁ q false (branch d u₂ b true s₂)))
              s'
            × (y ≡ q))
          (turn_out d p b s)
  unfolding turn_out
  turn_out-black u₁ q u₂ b s₂ black held =
      let w = branch d u₁ q true u₂ in
      let high = step (other d) p c t up in
      let h = Held-far d p c up t (branch d w b false s₂) held in
      let k = joint d b false high w s₂ h in
      let read =
        root_colour (above nil (step (other d) b false w high)) s₂ held.sentinel
          (Held-far d b false high w s₂ h).at.down
        ∙ ap (λ e. ok e s) black in
      rw (get_child-ok (other d) s b k.there, k.far, read)
        (bind
          (far-Change d p c up t (branch d w b false s₂) (branch d w b true s₂)
            (paint s high d w b false true s₂ h))
          λ _ v₁ c₁.
            let h₁ = Held-far d p c up t (branch d w b true s₂) c₁.held in
            let k₁ = joint d b true high w s₂ h₁ in
            rw (get_child-ok d v₁ b k₁.there, k₁.near, ptr-branch d nil u₁ q true u₂)
              (bind
                (far-Change d p c up t (branch d w b true s₂)
                  (branch d (branch d u₁ q false u₂) b true s₂)
                  (near-Change d b true high w (branch d u₁ q false u₂) s₂ (
                    paint v₁ (step d b true s₂ high) d u₁ q true false u₂
                      (Held-near d b true high w s₂ h₁))))
                λ _ v₂ c₂.
                  bind
                    (far-Change d p c up t (branch d (branch d u₁ q false u₂) b true s₂)
                      (branch d u₁ q false (branch d u₂ b true s₂))
                      (rotate_back-Change v₂ high d u₁ q false u₂ b true s₂ (
                        Held-far d p c up t (branch d (branch d u₁ q false u₂) b true s₂) c₂.held)))
                    λ _ v₃ c₃.
                      let j =
                        joint d p c up t (branch d u₁ q false (branch d u₂ b true s₂)) c₃.held in
                      of_eq q v₃
                        (get_child-ok (other d) v₃ p j.there
                          ∙ ap (λ y. ok y v₃)
                              (j.far ∙ ptr-branch d nil u₁ q false (branch d u₂ b true s₂)))
                        (Change-trans c₁ (Change-trans c₂ c₃), refl)))
