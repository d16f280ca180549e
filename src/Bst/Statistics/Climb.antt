-- ===== src/Bst/Statistics/Climb.antt =====
-- The walk from a node of a `struct bst_node` tree up to the root.
use dsa.Bst.Statistics.{climb}
use dsa.Bst.{Plain}
use dsa.Prelude.{
  ℕ, zero, suc, ◌+◌, ◌^◌, ◌<◌, ◌≡◌, refl, ◌∙◌, ap, inl, inr, Bool-cases, true, ◌==◌, ==→eq, ltb,
  to_nat, arith,
}
use dsa.Store.Access.{get_parent-ok, live-not_null, increment-ok}
use dsa.Store.{null, Store, ok, live}
use dsa.Tree.Levels.{level, depth, is_pos, not_pos}
use dsa.Tree.Rep.{IsRepHole, IsAt, IsTree}
use dsa.Tree.Walk.{go_left, go_right}
use dsa.Tree.{Tree, leaf, node, Hole, top, on_left, on_right, above, count, size}

module _ (s : Store Plain) where
  -- one node on the way
  climb_step :
      (k a p nh : ℕ)
      → live s.allocated a ≡ true
      → s.parent a ≡ p
      → nh + 1 < 2 ^ 31
      → climb (suc k) a nh s ≡ climb k p (nh + 1) s
  unfolding climb
  climb_step k a p nh there e fits =
      rw (live-not_null s.allocated a there, increment-ok nh s fits, get_parent-ok s a there, e)
        refl

  climb_hole :
      (k : ℕ) (h : Hole Plain) (q nh : ℕ)
      → depth h < k
      → nh + depth h < 2 ^ 31
      → IsRepHole null s q h
      → climb k (above null h) nh s ≡ ok (nh + depth h) s
  unfolding climb
  climb_hole zero h q nh fuel fits at = absurd (omega arith)
  climb_hole (suc k) top q nh fuel fits at = ap (λ n. ok n s) (omega arith)
  climb_hole (suc k) (on_left a c r up) q nh fuel fits (n, d, at) =
      climb_step k a (above null up) nh n.there n.parent (omega (arith, fits))
      ∙ climb_hole k up a (nh + 1) (omega arith) (omega (arith, fits)) at
      ∙ ap (λ m. ok m s) (omega arith)
  climb_hole (suc k) (on_right l a c up) q nh fuel fits (n, d, at) =
      climb_step k a (above null up) nh n.there n.parent (omega (arith, fits))
      ∙ climb_hole k up a (nh + 1) (omega arith) (omega (arith, fits)) at
      ∙ ap (λ m. ok m s) (omega arith)

  climb_more :
      (k : ℕ) (h : Hole Plain) (a nh : ℕ)
      → depth h + 1 < k
      → nh + 1 + depth h < 2 ^ 31
      → live s.allocated a ≡ true
      → s.parent a ≡ above null h
      → IsRepHole null s a h
      → climb k a nh s ≡ ok (nh + 1 + depth h) s
  climb_more zero h a nh fuel fits there e up = absurd (omega arith)
  climb_more (suc k) h a nh fuel fits there e up =
      climb_step k a (above null h) nh there e (omega (arith, fits))
      ∙ climb_hole k h a (nh + 1) (omega arith) (omega (arith, fits)) up

  climb_tree :
      (k : ℕ) (h : Hole Plain) (t : Tree Plain) (x nh : ℕ)
      → size t + depth h + 1 < k
      → nh + level x t + depth h < 2 ^ 31
      → 0 < count x t
      → IsAt null s h t
      → climb k x nh s ≡ ok (nh + level x t + depth h) s
  climb_tree k h leaf x nh fuel fits i at = absurd (omega arith)
  climb_tree k h (node l a c r) x nh fuel fits i at = elim (Bool-cases (x == a)) [
    | inl e ↦
        let b : x ≡ a = ==→eq e in
        let n = at.down.0 in
        rw (e, b)
          (climb_more k h a nh (omega arith) (ground (arith, fits, e)) n.there n.parent at.up)
    | inr e ↦ elim (Bool-cases (ltb 0 (count x l))) [
      | inl f ↦
          rw (e, f)
            (climb_tree k (on_left a c r h) l x nh (omega arith)
                (let g = rw (e, f) at fits in omega (arith, g)) (is_pos (count x l) f)
                (go_left null h l a c r at)
              ∙ ap (λ n. ok n s) (omega arith))
      | inr f ↦
          rw (e, f)
            (climb_tree k (on_right l a c h) r x nh (omega arith)
                (let g = rw (e, f) at fits in omega (arith, g))
                (omega (arith, i, ap to_nat e, not_pos (count x l) f)) (go_right null h l a c r at)
              ∙ ap (λ n. ok n s) (omega arith))
    ]
  ]

  -- from a node of the tree the walk counts the nodes up to the root, if `int` can hold their number
  pub climb-level :
      (k : ℕ) (t : Tree Plain) (x nh : ℕ)
      → size t + 1 < k
      → nh + level x t < 2 ^ 31
      → 0 < count x t
      → IsTree null s t
      → climb k x nh s ≡ ok (nh + level x t) s
  climb-level k t x nh fuel fits i at =
      climb_tree k top t x nh (omega arith) (omega (arith, fits)) i at
      ∙ ap (λ n. ok n s) (omega arith)
