-- ===== src/Rb/Statistics/Climb.antt =====
-- The walk from a node up to the root.
use dsa.Prelude.{
  ℕ, zero, suc, ◌+◌, ◌^◌, ◌<◌, ◌≡◌, refl, ◌∙◌, ap, inl, inr, Bool-cases, true, false, ◌==◌, ==→eq,
  ltb, to_nat, arith,
}
use dsa.Rb.Defs.{Red, is_nil}
use dsa.Tree.Levels.{depth}
use dsa.Rb.Sentinel.{IsSentinel, is_nil-sentinel, ptr-not_null}
use dsa.Tree.Levels.{level, is_pos, not_pos}
use dsa.Rb.Statistics.{climb}
use dsa.Store.Access.{get_left-ok, get_parent-ok, live-not_null, increment-ok}
use dsa.Store.{Ptr, null, Store, ok, live}
use dsa.Tree.Rep.{IsRepHole, IsAt, IsTree}
use dsa.Tree.Walk.{go_left, go_right}
use dsa.Tree.{Tree, leaf, node, Hole, top, on_left, on_right, ptr, above, count, size}

module _ (nil : Ptr) (s : Store Red) (z : IsSentinel nil s) where
  -- one node on the way
  climb_step :
      (k : ℕ) (a p l nh : ℕ)
      → live s.allocated a ≡ true
      → s.parent a ≡ p
      → s.left a ≡ l
      → (l == null) ≡ false
      → nh + 1 < 2 ^ 31
      → climb (suc k) a nh s ≡ climb k p (nh + 1) s
  unfolding climb is_nil
  climb_step k a p l nh there e f g fits =
      rw (get_left-ok s a there, f, g, increment-ok nh s fits, get_parent-ok s a there, e) refl

  climb_hole :
      (k : ℕ) (h : Hole Red) (q nh : ℕ)
      → depth h < k
      → nh + depth h < 2 ^ 31
      → (q == null) ≡ false
      → IsRepHole nil s q h
      → climb k (above nil h) nh s ≡ ok (nh + depth h) s
  unfolding climb
  climb_hole zero h q nh fuel fits e at = absurd (omega arith)
  climb_hole (suc k) top q nh fuel fits e at =
      rw (is_nil-sentinel nil s z) (ap (λ n. ok n s) (omega arith))
  climb_hole (suc k) (on_left a c r up) q nh fuel fits e (n, d, at) =
      climb_step k a (above nil up) q nh n.there n.parent n.left e (omega (arith, fits))
      ∙ climb_hole k up a (nh + 1) (omega arith) (omega (arith, fits))
          (live-not_null s.allocated a n.there) at
      ∙ ap (λ m. ok m s) (omega arith)
  climb_hole (suc k) (on_right l a c up) q nh fuel fits e (n, d, at) =
      climb_step k a (above nil up) (ptr nil l) nh n.there n.parent n.left
        (ptr-not_null nil s z a l d) (omega (arith, fits))
      ∙ climb_hole k up a (nh + 1) (omega arith) (omega (arith, fits))
          (live-not_null s.allocated a n.there) at
      ∙ ap (λ m. ok m s) (omega arith)

  climb_more :
      (k : ℕ) (h : Hole Red) (l : Tree Red) (a : ℕ) (c : Red) (r : Tree Red) (nh : ℕ)
      → depth h + 1 < k
      → nh + 1 + depth h < 2 ^ 31
      → live s.allocated a ≡ true
      → s.parent a ≡ above nil h
      → s.left a ≡ ptr nil l
      → (ptr nil l == null) ≡ false
      → IsRepHole nil s a h
      → climb k a nh s ≡ ok (nh + 1 + depth h) s
  climb_more zero h l a c r nh fuel fits there e f g up = absurd (omega arith)
  climb_more (suc k) h l a c r nh fuel fits there e f g up =
      climb_step k a (above nil h) (ptr nil l) nh there e f g (omega (arith, fits))
      ∙ climb_hole k h a (nh + 1) (omega arith) (omega (arith, fits))
          (live-not_null s.allocated a there) up

  climb_tree :
      (k : ℕ) (h : Hole Red) (t : Tree Red) (x nh : ℕ)
      → size t + depth h + 1 < k
      → nh + level x t + depth h < 2 ^ 31
      → 0 < count x t
      → IsAt nil s h t
      → climb k x nh s ≡ ok (nh + level x t + depth h) s
  climb_tree k h leaf x nh fuel fits i at = absurd (omega arith)
  climb_tree k h (node l a c r) x nh fuel fits i at = elim (Bool-cases (x == a)) [
    | inl e ↦
        let b : x ≡ a = ==→eq e in
        let n = at.down.0 in
        rw (e, b)
          (climb_more k h l a c r nh (omega arith) (ground (arith, fits, e)) n.there n.parent n.left
            (ptr-not_null nil s z a l at.down.1) at.up)
    | inr e ↦ elim (Bool-cases (ltb 0 (count x l))) [
      | inl f ↦
          rw (e, f)
            (climb_tree k (on_left a c r h) l x nh (omega arith)
                (let g = rw (e, f) at fits in omega (arith, g)) (is_pos (count x l) f)
                (go_left nil h l a c r at)
              ∙ ap (λ n. ok n s) (omega arith))
      | inr f ↦
          rw (e, f)
            (climb_tree k (on_right l a c h) r x nh (omega arith)
                (let g = rw (e, f) at fits in omega (arith, g))
                (omega (arith, i, ap to_nat e, not_pos (count x l) f)) (go_right nil h l a c r at)
              ∙ ap (λ n. ok n s) (omega arith))
    ]
  ]

  -- from a node of the tree the walk counts the nodes up to the root, if `int` can hold their number
  pub climb-level :
      (k : ℕ) (t : Tree Red) (x nh : ℕ)
      → size t + 1 < k
      → nh + level x t < 2 ^ 31
      → 0 < count x t
      → IsTree nil s t
      → climb k x nh s ≡ ok (nh + level x t) s
  climb-level k t x nh fuel fits i at =
      climb_tree k top t x nh (omega arith) (omega (arith, fits)) i at
      ∙ ap (λ n. ok n s) (omega arith)
