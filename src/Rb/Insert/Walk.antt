-- ===== src/Rb/Insert/Walk.antt =====
-- The walk of `rb_insert` down to a free place.
use dsa.Order.{less}
use dsa.Prelude.Int.{ℤ, pos, ltb_ℤ}
use dsa.Prelude.{
  ℕ, zero, suc, ◌+◌, ◌≤◌, ◌<◌, ◌≡◌, ◌==◌, refl, sym, ◌∙◌, subst, inl, inr, true, false, ◌&&◌,
  Bool-cases, ==_refl, ==_false, to_nat_eq, arith,
}
use dsa.Rb.Colours.{red_root, red_above, IsRb, IsRbHole}
use dsa.Rb.Defs.{Red}
use dsa.Tree.Levels.{depth}
use dsa.Rb.Insert.{insert_loop}
use dsa.Store.Access.{get_left-ok, get_right-ok}
use dsa.Store.{Ptr, Store, ok, live}
use dsa.Tree.Rep.{IsAt}
use dsa.Tree.Search.{descend}
use dsa.Tree.Walk.{go_left, go_right}
use dsa.Tree.{Tree, leaf, node, Hole, top, on_left, on_right, ptr, above, size}

-- the last comparison was on the side of the hole
abbrev pub Points : ℤ → Hole Red → Type 0
Points ret top = Unit {0}
Points ret (on_left a c r up) = ltb_ℤ ret (pos 0) ≡ true
Points ret (on_right l a c up) = ltb_ℤ ret (pos 0) ≡ false

module _ (cmp : Ptr → Ptr → ℤ) (x : Ptr) where
  pub depth-descend : (h : Hole Red) (t : Tree Red) → depth (descend cmp x h t) ≤ depth h + size t
  depth-descend h leaf = omega arith
  depth-descend h (node l a c r) = elim (Bool-cases (less cmp x a)) [
    | inl e ↦ rw e (omega (arith, depth-descend (on_left a c r h) l))
    | inr e ↦ rw e (omega (arith, depth-descend (on_right l a c h) r))
  ]

  -- a free place in a coloured tree is a coloured hole
  pub descend-IsRbHole :
      (n : ℕ) (h : Hole Red) (t : Tree Red)
      → IsRbHole n h
      → IsRb n t
      → (red_root t && red_above h) ≡ false
      → IsRbHole 0 (descend cmp x h t)
  descend-IsRbHole n h leaf hole rb calm = subst (λ m. IsRbHole m h) rb hole
  descend-IsRbHole n h (node l a c r) hole (m, e, calm_l, calm_r, rb_l, rb_r) calm =
      let outer = subst (λ k. IsRbHole k h) e hole in
      elim (Bool-cases (less cmp x a)) [
        | inl lt ↦ rw lt (
            descend-IsRbHole m (on_left a c r h) l (calm_r, rb_r, calm, outer) rb_l
              (ground (arith, calm_l)))
        | inr ge ↦ rw ge (
            descend-IsRbHole m (on_right l a c h) r (calm_l, rb_l, calm, outer) rb_r
              (ground (arith, calm_r)))
      ]

module _ (nil : Ptr) (cmp : Ptr → Ptr → ℤ) (x : Ptr) (s : Store Red) where
  insert_loop-left :
      (k : ℕ) (a p n : Ptr) (ret : ℤ)
      → live s.allocated a ≡ true
      → (a == nil) ≡ false
      → s.left a ≡ n
      → less cmp x a ≡ true
      → insert_loop nil cmp (suc k) x a p ret s ≡ insert_loop nil cmp k x n a (cmp x a) s
  unfolding insert_loop
  insert_loop-left k a p n ret there inner e lt = rw (inner, lt, get_left-ok s a there, e)

  insert_loop-right :
      (k : ℕ) (a p n : Ptr) (ret : ℤ)
      → live s.allocated a ≡ true
      → (a == nil) ≡ false
      → s.right a ≡ n
      → less cmp x a ≡ false
      → insert_loop nil cmp (suc k) x a p ret s ≡ insert_loop nil cmp k x n a (cmp x a) s
  unfolding insert_loop
  insert_loop-right k a p n ret there inner e ge = rw (inner, ge, get_right-ok s a there, e)

  abbrev pub Arrives : ℕ → Ptr → Ptr → ℤ → Hole Red → Type 0
  Arrives k n p ret h =
      (ret' : ℤ) × (insert_loop nil cmp k x n p ret s ≡ ok (above nil h, ret') s) × Points ret' h

  pub insert_loop-Arrives :
      (k : ℕ) (h : Hole Red) (t : Tree Red) (ret : ℤ)
      → size t < k
      → IsAt nil s h t
      → Points ret h
      → Arrives k (ptr nil t) (above nil h) ret (descend cmp x h t)
  insert_loop-Arrives zero h t ret fuel at p = absurd (omega arith)
  insert_loop-Arrives (suc k) h leaf ret fuel at p =
      (ret, unfold insert_loop in rw (==_refl nil) refl, p)
  insert_loop-Arrives (suc k) h (node l a c r) ret fuel at p =
      let n = at.down.0 in
      let goes = Arrives (suc k) a (above nil h) ret in
      let inner : (a == nil) ≡ false =
        ==_false (λ e. omega (arith, at.absent, to_nat_eq (sym e))) in
      elim (Bool-cases (less cmp x a)) [
        | inl e ↦
            let (ret', run, q) =
              insert_loop-Arrives k (on_left a c r h) l (cmp x a) (omega arith)
                (go_left nil h l a c r at) e in
            subst goes (sym (rw e))
              (ret', insert_loop-left k a (above nil h) _ ret n.there inner n.left e ∙ run, q)
        | inr e ↦
            let (ret', run, q) =
              insert_loop-Arrives k (on_right l a c h) r (cmp x a) (omega arith)
                (go_right nil h l a c r at) e in
            subst goes (sym (rw e))
              (ret', insert_loop-right k a (above nil h) _ ret n.there inner n.right e ∙ run, q)
      ]
