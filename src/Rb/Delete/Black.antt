-- ===== src/Rb/Delete/Black.antt =====
-- A round of the loop of `rb_delete` at a black sibling, whatever the colours of the nephews.
use dsa.Prelude.{ℕ, ◌≡◌, refl, true, false, arith}
use dsa.Rb.Change.{Held}
use dsa.Rb.Colours.{red_root, IsRb, IsRb-parts, IsRb-branch, IsRb-eq}
use dsa.Rb.Defs.{Red, Side, left, right}
use dsa.Rb.Delete.Close.{close, turn_out-red, turn_out-black}
use dsa.Rb.Delete.Round.{
  lift_black, Outcome, lift_black_run, round_pushed, round_closed, Outcome-after,
}
use dsa.Rb.Sides.{branch}
use dsa.Store.Returns.{Returns, bind, mono}
use dsa.Store.{Ptr, Store}
use dsa.Tree.{Tree, leaf, node, Hole, ptr}

module _ {nil : Ptr} (s : Store Red) (up : Hole Red) (t : Tree Red) (p : Ptr) (c : Red) (n : ℕ)
    (black : red_root t ≡ false) (rb : IsRb n t) where
  -- the nephew on the outer side is red
  outer_red :
      (d : Side) (s₁ : Tree Red) (b : Ptr) (ol : Tree Red) (o : Ptr) (or : Tree Red)
      → IsRb n s₁
      → IsRb n (node ol o true or)
      → Held nil s up (branch d t p c (branch d s₁ b false (node ol o true or)))
      → Returns
          (Outcome nil s up (branch d t p c (branch d s₁ b false (node ol o true or))) c n)
          (lift_black d (ptr nil t) p b s)
  outer_red d s₁ b ol o or rb₁ rb₂ held =
      rw
        (
          lift_black_run s up d t p c n b black rb s₁ (node ol o true or) held false (ground arith),
          turn_out-red s up d t p c s₁ b ol o or held,
        )
        (round_closed s up d t p c n black rb s₁ b ol o or rb₁ rb₂ held)

  closed_turned :
      (d : Side) (u₁ : Tree Red) (q : Ptr) (u₂ : Tree Red) (b : Ptr) (s₂ : Tree Red)
      → IsRb n u₁
      → IsRb n (branch d u₂ b true s₂)
      → Held nil s up (branch d t p c (branch d u₁ q false (branch d u₂ b true s₂)))
      → Returns
          (Outcome nil s up (branch d t p c (branch d u₁ q false (branch d u₂ b true s₂))) c n)
          (close d (ptr nil t) p q s)
  closed_turned left u₁ q u₂ b s₂ rb₁ rb₂ held =
      round_closed s up left t p c n black rb u₁ q u₂ b s₂ rb₁ rb₂ held
  closed_turned right u₁ q u₂ b s₂ rb₁ rb₂ held =
      round_closed s up right t p c n black rb u₁ q s₂ b u₂ rb₁ rb₂ held

module _ {nil : Ptr} (s : Store Red) (up : Hole Red) (t : Tree Red) (p : Ptr) (c : Red) (n : ℕ)
    (black : red_root t ≡ false) (rb : IsRb n t) where
  -- only the nephew on the inner side is red
  inner_red :
      (d : Side) (u₁ : Tree Red) (q : Ptr) (u₂ : Tree Red) (b : Ptr) (s₂ : Tree Red)
      → red_root (branch d u₁ q true u₂) ≡ true
      → red_root s₂ ≡ false
      → IsRb n (branch d u₁ q true u₂)
      → IsRb n s₂
      → Held nil s up (branch d t p c (branch d (branch d u₁ q true u₂) b false s₂))
      → Returns
          (Outcome nil s up (branch d t p c (branch d (branch d u₁ q true u₂) b false s₂)) c n)
          (lift_black d (ptr nil t) p b s)
  inner_red d u₁ q u₂ b s₂ red black₂ rb₁ rb₂ held =
      let k = IsRb-parts d n u₁ q true u₂ rb₁ in
      let e = k.height in
      let old = branch d t p c (branch d (branch d u₁ q true u₂) b false s₂) in
      let mid = branch d t p c (branch d u₁ q false (branch d u₂ b true s₂)) in
      rw
        (lift_black_run s up d t p c n b black rb (branch d u₁ q true u₂) s₂ held false
          (rw red refl))
        (bind (turn_out-black s up d t p c u₁ q u₂ b s₂ black₂ held) λ y s' (ch, y≡). rw y≡ (
          mono
            (closed_turned s' up t p c n black rb d u₁ q u₂ b s₂
              (IsRb-eq u₁ (omega (arith, e)) k.near)
              (IsRb-branch d k.below n u₂ b true s₂ e k.calm_far black₂ k.far
                (IsRb-eq s₂ (omega (arith, e)) rb₂))
              ch.held)
            λ r s'' o. Outcome-after s up d t p c n black rb old mid r s'' ch o))

  pub lift_black-Outcome :
      (d : Side) (s₁ : Tree Red) (b : Ptr) (s₂ : Tree Red)
      → IsRb n s₁
      → IsRb n s₂
      → Held nil s up (branch d t p c (branch d s₁ b false s₂))
      → Returns
          (Outcome nil s up (branch d t p c (branch d s₁ b false s₂)) c n)
          (lift_black d (ptr nil t) p b s)
  lift_black-Outcome d s₁ b (node ol o true or) rb₁ rb₂ held =
      outer_red s up t p c n black rb d s₁ b ol o or rb₁ rb₂ held
  lift_black-Outcome d leaf b leaf rb₁ rb₂ held =
      round_pushed s up d t p c n b black rb leaf leaf held refl refl rb₁ rb₂
  lift_black-Outcome d leaf b (node ol o false or) rb₁ rb₂ held =
      round_pushed s up d t p c n b black rb leaf (node ol o false or) held refl refl rb₁ rb₂
  lift_black-Outcome d (node l q false r) b leaf rb₁ rb₂ held =
      round_pushed s up d t p c n b black rb (node l q false r) leaf held refl refl rb₁ rb₂
  lift_black-Outcome d (node l q false r) b (node ol o false or) rb₁ rb₂ held =
      round_pushed s up d t p c n b black rb (node l q false r) (node ol o false or) held refl refl
        rb₁ rb₂
  lift_black-Outcome left (node l q true r) b leaf rb₁ rb₂ held =
      inner_red left l q r b leaf refl refl rb₁ rb₂ held
  lift_black-Outcome left (node l q true r) b (node ol o false or) rb₁ rb₂ held =
      inner_red left l q r b (node ol o false or) refl refl rb₁ rb₂ held
  lift_black-Outcome right (node l q true r) b leaf rb₁ rb₂ held =
      inner_red right r q l b leaf refl refl rb₁ rb₂ held
  lift_black-Outcome right (node l q true r) b (node ol o false or) rb₁ rb₂ held =
      inner_red right r q l b (node ol o false or) refl refl rb₁ rb₂ held
