-- ===== src/Rb/Replace.antt =====
-- `rb_replace`, whose statements stand in the rotations too: what hangs below a hole is replaced.
use dsa.Prelude.{
  ◌⊎◌, ◌<◌, ◌≡◌, ◌≢◌, ◌==◌, true, false, sym, ◌∙◌, inl, inr, update, to_nat_eq, ==_refl, ==_false,
  arith,
}
use dsa.Rb.Defs.{Red, replace}
use dsa.Store.Access.{get_parent-ok, get_left-ok, set_left-ok, set_right-ok, set_parent-ok}
use dsa.Store.{Ptr, Store, ok, live}
use dsa.Tree.Distinct.{ptr-ne, ne_of_count_hole}
use dsa.Tree.Hook.{hook}
use dsa.Tree.Rep.{IsRepHole}
use dsa.Tree.{Hole, top, on_left, on_right, above, count_hole}

-- below the root hangs the whole way to the hole
pub root-in_hole :
    (nil : Ptr) (s : Store Red) (h : Hole Red) (q : Ptr)
    → IsRepHole nil s q h
    → (s.root ≡ q) ⊎ (0 < count_hole s.root h)
root-in_hole nil s top q d = inl d
root-in_hole nil s (on_left a c r up) q (n, _, d) = elim (root-in_hole nil s up a d) [
  | inl e ↦ inr (ground arith)
  | inr i ↦ inr (omega (arith, i))
]
root-in_hole nil s (on_right l a c up) q (n, _, d) = elim (root-in_hole nil s up a d) [
  | inl e ↦ inr (ground arith)
  | inr i ↦ inr (omega (arith, i))
]

not_root :
    (nil : Ptr) (s : Store Red) (up : Hole Red) (a p : Ptr)
    → IsRepHole nil s p up
    → a ≢ p
    → count_hole a up ≡ 0
    → (a == s.root) ≡ false
not_root nil s up a p d ne out = elim (root-in_hole nil s up p d) [
  | inl e ↦ ==_false (λ f. ne (f ∙ e))
  | inr i ↦ ==_false (λ f. ne_of_count_hole _ a up i out (sym f))
]

module _ (nil : Ptr) (s : Store Red) (a b : Ptr) where
  -- the store after `rb_replace`
  abbrev pub replaced : Hole Red → Store Red
  replaced h = record (hook s h b) { parent = update s.parent b (above nil h) }

  -- the node at `a` hangs below the hole, and the node at `b` may be written
  pub record IsHung (h : Hole Red) : Type 0 where
    pub up : IsRepHole nil s a h
    pub there : live s.allocated a ≡ true
    pub parent : s.parent a ≡ above nil h
    pub apart : count_hole a h ≡ 0
    pub outer : a ≢ nil
    pub by : live s.allocated b ≡ true

  -- `rb_replace` links the other node into the place of the first
  pub replace_run : (h : Hole Red) → IsHung h → replace a b s ≡ ok tt (replaced h)
  unfolding replace
  replace_run top g =
      rw (g.up, ==_refl a, get_parent-ok (record s { root = b }) a g.there, g.parent)
        (set_parent-ok (record s { root = b }) b g.by nil)
  replace_run (on_left p c r up) g =
      let n = g.up.0 in
      let ne : a ≢ p = λ e. omega (arith, g.apart, to_nat_eq e) in
      let t = record s { left = update s.left p b } in
      rw
        (
          not_root nil s up a p g.up.2 ne (omega (arith, g.apart)),
          get_parent-ok s a g.there,
          g.parent,
          get_left-ok s p n.there,
          n.left,
          ==_refl a,
          set_left-ok s p n.there b,
          get_parent-ok t a g.there,
          g.parent,
        )
        (set_parent-ok t b g.by p)
  replace_run (on_right l p c up) g =
      let n = g.up.0 in
      let ne : a ≢ p = λ e. omega (arith, g.apart, to_nat_eq e) in
      let t = record s { right = update s.right p b } in
      rw
        (
          not_root nil s up a p g.up.2 ne (omega (arith, g.apart)),
          get_parent-ok s a g.there,
          g.parent,
          get_left-ok s p n.there,
          n.left,
          ==_false (λ e. ptr-ne nil a l g.outer (omega (arith, g.apart)) (sym e)),
          set_right-ok s p n.there b,
          get_parent-ok t a g.there,
          g.parent,
        )
        (set_parent-ok t b g.by p)
