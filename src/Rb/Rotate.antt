-- ===== src/Rb/Rotate.antt =====
-- The rotations, `rb_rotate_left` and `rb_rotate_right`: the store that they leave behind.
pub mod Turned
pub mod Rotated
use dsa.Prelude.{
  ◌+◌, ◌≤◌, ◌<◌, ◌≡◌, ◌≢◌, ◌==◌, ◌⊎◌, inl, inr, to_nat, to_nat_eq, to_nat_self, refl, sym, ◌∙◌, ap,
  subst, true, update, ==_refl, ==_false, arith,
}
use dsa.Rb.Defs.{Red, Side, left, right, other, rotate}
use dsa.Rb.Replace.{replaced, IsHung, replace_run}
use dsa.Rb.Sides.{
  child, put, branch, get_child-ok, set_child-ok, child-put, IsPivot, IsAt-IsPivot, inorder-turn,
}
use dsa.Store.Access.{live-ne, get_left-ok, get_right-ok, set_left-ok, set_right-ok, set_parent-ok}
use dsa.Store.Returns.{Returns, of_eq}
use dsa.Store.{Ptr, Store, ok, live}
use dsa.Tree.Distinct.{ptr-ne, ne_nil, ne_nil_hole, ne_of_count, ne_of_count_hole}
use dsa.Tree.Frame.{IsRep-Same, IsRepHole-Same, IsRep-reparent}
use dsa.Tree.Graft.{graft, graft-Same, IsAt-graft}
use dsa.Tree.Hook.{hook, hook_left, hook_right}
use dsa.Tree.Rep.{SameBelow, Same, IsRep, IsRepHole, IsAt}
use dsa.Tree.{
  Tree, leaf, node, Hole, top, on_left, on_right, ptr, above, count, count_hole, inorder,
}
use mathlib.Core.Path.{fun_ext}

update_comm :
    (f : Ptr → Ptr) (a b v w : Ptr) → a ≢ b → update (update f a v) b w ≡ update (update f b w) a v
update_comm f a b v w ne = fun_ext λ x. ground arith

pub update-at : (f : Ptr → Ptr) (p v : Ptr) → update f p v p ≡ v
update-at f p v = rw (==_refl p)

pub update-out : (f : Ptr → Ptr) (p x v : Ptr) → x ≢ p → update f p v x ≡ f x
update-out f p x v ne = rw (==_false ne)

pub hook_left_comm :
    (h : Hole Red) (w b v : Ptr) (f : Ptr → Ptr)
    → count_hole b h ≡ 0
    → update (hook_left h w f) b v ≡ hook_left h w (update f b v)
hook_left_comm top w b v f out = refl
hook_left_comm (on_left p c r up) w b v f out =
    update_comm f p b w v (λ e. omega (arith, out, to_nat_eq (sym e)))
hook_left_comm (on_right l p c up) w b v f out = refl

pub hook_right_comm :
    (h : Hole Red) (w b v : Ptr) (f : Ptr → Ptr)
    → count_hole b h ≡ 0
    → update (hook_right h w f) b v ≡ hook_right h w (update f b v)
hook_right_comm top w b v f out = refl
hook_right_comm (on_left p c r up) w b v f out = refl
hook_right_comm (on_right l p c up) w b v f out =
    update_comm f p b w v (λ e. omega (arith, out, to_nat_eq (sym e)))

module _ (nil : Ptr) (s : Store Red) (h : Hole Red) where
  -- after the first two writes, and at the end
  abbrev pub half : Side → (a y : Ptr) → Store Red
  half d a y = record (put (other d) s a y) { parent = update s.parent y a }

  abbrev pub final : Side → (a b y : Ptr) → Store Red
  final d a b y =
      let r = put d (replaced nil (half d a y) a b h) b a in
      record r { parent = update (update (update s.parent y a) b (above nil h)) a b }

  -- the same, with the writes at the place of `a` last
  abbrev pub turned : Side → (a b y : Ptr) → Store Red
  turned d a b y = record (put d (put (other d) s a y) b a) {
    parent = update (update s.parent y a) a b;
  }

  pub rotate_run :
      (d : Side) (a b y : Ptr)
      → live s.allocated a ≡ true
      → live s.allocated b ≡ true
      → live s.allocated y ≡ true
      → child (other d) s a ≡ b
      → child d s b ≡ y
      → IsHung nil (half d a y) a b h
      → rotate d a s ≡ ok tt (final d a b y)
  unfolding rotate
  rotate_run left a b y there_a there_b there_y far inner hung =
      let u = put right s a y in
      let v = half left a y in
      let r = replaced nil v a b h in
      rw
        (
          get_right-ok s a there_a,
          far,
          get_left-ok s b there_b,
          inner,
          set_right-ok s a there_a y,
          get_left-ok u b there_b,
          inner,
          set_parent-ok u y there_y a,
          replace_run nil v a b h hung,
          set_left-ok r b there_b a,
        )
        (set_parent-ok (put left r b a) a there_a b)
  rotate_run right a b y there_a there_b there_y far inner hung =
      let u = put left s a y in
      let v = half right a y in
      let r = replaced nil v a b h in
      rw
        (
          get_left-ok s a there_a,
          far,
          get_right-ok s b there_b,
          inner,
          set_left-ok s a there_a y,
          get_right-ok u b there_b,
          inner,
          set_parent-ok u y there_y a,
          replace_run nil v a b h hung,
          set_right-ok r b there_b a,
        )
        (set_parent-ok (put right r b a) a there_a b)

  pub final-turned :
      (d : Side) (a b y : Ptr) (low : Tree Red) (e : Red) (t₃ : Tree Red)
      → a ≢ b
      → count_hole b h ≡ 0
      → final d a b y ≡ graft nil (turned d a b y) h (branch d low b e t₃)
  final-turned left a b y low e t₃ ne out = rw (hook_left_comm h b b a s.left out) (
      ap (λ p. record (hook (turned left a b y) h b) { parent = p })
        (update_comm (update s.parent y a) b a (above nil h) b (λ q. ne (sym q))))
  final-turned right a b y low e t₃ ne out = rw (hook_right_comm h b b a s.right out) (
      ap (λ p. record (hook (turned right a b y) h b) { parent = p })
        (update_comm (update s.parent y a) b a (above nil h) b (λ q. ne (sym q))))
