-- ===== src/Tree/Distinct.antt =====
-- No node of a tree is the empty pointer, and two places in a tree are two nodes.
use dsa.Prelude.{
  ◌+◌, ◌≤◌, ◌==◌, to_nat, Bool-cases, ==→eq, ◌<◌, ◌≡◌, ◌≢◌, ◌⊎◌, inl, inr, refl, sym, ap, ◌∙◌,
  arith,
}
use dsa.Store.{Ptr}
use dsa.Tree.{Tree, leaf, node, Hole, top, on_left, on_right, ptr, above, count, count_hole}

module _ {T : Type 0} where
  pub ptr-count : (nil : Ptr) (t : Tree T) → (ptr nil t ≡ nil) ⊎ (0 < count (ptr nil t) t)
  ptr-count nil leaf = inl refl
  ptr-count nil (node l a c r) = inr (ground arith)

  pub ne_of_count : (x a : Ptr) (t : Tree T) → 0 < count x t → count a t ≡ 0 → x ≢ a
  ne_of_count x a t i z e = omega (arith, ap (λ y. count y t) e)

  pub ne_of_count_hole : (x a : Ptr) (h : Hole T) → 0 < count_hole x h → count_hole a h ≡ 0 → x ≢ a
  ne_of_count_hole x a h i z e = omega (arith, ap (λ y. count_hole y h) e)

  -- the node above a hole is not below it
  pub above-ne : (nil x : Ptr) (h : Hole T) → x ≢ nil → count_hole x h ≡ 0 → x ≢ above nil h
  above-ne nil x top ne out e = ne e
  above-ne nil x (on_left a c r up) ne out e = ground arith
  above-ne nil x (on_right l a c up) ne out e = ground arith

  -- the pointer to a tree is not a node that the tree lacks
  pub ptr-ne : (nil x : Ptr) (t : Tree T) → x ≢ nil → count x t ≡ 0 → ptr nil t ≢ x
  ptr-ne nil x t ne out e = elim (ptr-count nil t) [
    | inl h ↦ ne (sym e ∙ h)
    | inr h ↦ ne_of_count _ x t h out e
  ]

  pub ne_nil : (nil a : Ptr) (t : Tree T) → count nil t ≡ 0 → 0 < count a t → a ≢ nil
  ne_nil nil a t z i = ne_of_count a nil t i z

  pub ne_nil_hole : (nil a : Ptr) (h : Hole T) → count_hole nil h ≡ 0 → 0 < count_hole a h → a ≢ nil
  ne_nil_hole nil a h z i = ne_of_count_hole a nil h i z

  -- one more node at a free address
  pub once-new :
      (x y : Ptr) (t : Tree T) → count x t ≡ 0 → count y t ≤ 1 → to_nat (y == x) + count y t ≤ 1
  once-new x y t z o = elim (Bool-cases (y == x)) [
    | inl e ↦ rw e (omega (arith, z, ap (λ w. count w t) (==→eq e)))
    | inr e ↦ rw e (omega (arith, o))
  ]
