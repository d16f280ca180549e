-- ===== src/Tree/Hand.antt =====
-- The deletion of a node with two children, the steps that both tree programs share: the node below
-- a hole, and its right subtree handed to the node that is to take its place.
use dsa.Prelude.{
  ◌+◌, ◌≤◌, ◌<◌, ◌≡◌, ◌≢◌, ◌==◌, true, refl, ◌∙◌, to_nat, to_nat_self, to_nat_eq, update, arith,
}
use dsa.Store.Access.{get_right-ok, set_right-ok, set_parent-ok}
use dsa.Store.{Ptr, Store, ok, live, ◌>>=◌, ◌>>◌, get_right, set_right, set_parent}
use dsa.Tree.Frame.{
  IsRep-Same, IsRep-reparent, IsRepHole-Same, Same-trans, set_right-Same, set_parent-Same,
}
use dsa.Tree.Rep.{Same, IsNode, IsRep, IsRepHole, IsAt}
use dsa.Tree.{Tree, leaf, node, Hole, ptr, above, count, count_hole}

module _ {T : Type 0} (nil : Ptr) where
  -- the node at `a` is the one below the hole; what is below the node may be anything
  pub record Hangs (s : Store T) (h : Hole T) (a : Ptr) : Type 0 where
    pub up : IsRepHole nil s a h
    pub there : live s.allocated a ≡ true
    pub parent : s.parent a ≡ above nil h
    pub apart : count_hole a h ≡ 0

  -- The deleted node `a` still hangs in its hole and has its left subtree `l`; the tree `w` that is
  -- to take its place stands by itself.
  pub record IsReady (s : Store T) (h : Hole T) (a : Ptr) (l w : Tree T) : Type 0 where
    pub hangs : Hangs s h a
    pub child : s.left a ≡ ptr nil l
    pub left : IsRep nil s a l
    pub next : IsRep nil s (s.parent (ptr nil w)) w

module _ {T : Type 0} (nil : Ptr) where
  pub IsAt-Hangs :
      {s : Store T} (h : Hole T) (l : Tree T) (a : Ptr) (c : T) (r : Tree T)
      → IsAt nil s h (node l a c r)
      → Hangs nil s h a
  IsAt-Hangs h l a c r at = record {
    up = at.up;
    there = at.down.0.there;
    parent = at.down.0.parent;
    apart = omega (arith, at.once a, to_nat_self a);
  }

module _ {T : Type 0} where
  -- the store after `next->right = node->right; node->right->parent = next`
  abbrev pub handed : Store T → Ptr → Ptr → Store T
  handed s m b = record s { right = update s.right m b; parent = update s.parent b m }

module _ {T : Type 0} where
  pub hand_run :
      (s : Store T) (a m b : Ptr)
      → live s.allocated a ≡ true
      → live s.allocated m ≡ true
      → live s.allocated b ≡ true
      → s.right a ≡ b
      → a ≢ m
      → (do r ← get_right a; set_right m r; r' ← get_right a; set_parent r' m) s
        ≡ ok tt (handed s m b)
  hand_run s a m b ta tm tb e ne =
      let s' : Store T = record s { right = update s.right m b } in
      let e' : s'.right a ≡ b = ground arith in
      rw (
        get_right-ok s a ta,
        e,
        set_right-ok s m tm b,
        get_right-ok s' a ta,
        e',
        set_parent-ok s' b tb m,
      )

  pub handed-Same : (s : Store T) (m b x : Ptr) → x ≢ m → x ≢ b → Same s (handed s m b) x
  handed-Same s m b x nm nb =
      Same-trans (set_right-Same s m b x nm)
        (set_parent-Same (record s { right = update s.right m b }) b m x nb)

module _ {T : Type 0} (nil : Ptr) where
  -- the tree below `b` handed to the single node `m`
  pub handed-IsReady :
      (s : Store T) (h : Hole T) (l : Tree T) (a : Ptr) (c : T) (rl : Tree T) (b : Ptr) (d : T)
      (rr : Tree T) (m : Ptr) (e : T)
      → IsAt nil s h (node l a c (node rl b d rr))
      → IsNode s m (s.parent m) nil (s.right m) e
      → ((x : Ptr) → count_hole x h + count x (node l a c (node rl b d rr)) + to_nat (x == m) ≤ 1)
      → IsReady nil (handed s m b) h a l (node leaf m e (node rl b d rr))
  handed-IsReady s h l a c rl b d rr m e at n once =
      let r = node rl b d rr in
      let spare = λ (x : Ptr) (i : 0 < count_hole x h + to_nat (x == a) + count x l).
        handed-Same s m b x (λ z. omega (arith, once x, to_nat_eq z, i))
          (λ z. omega (arith, once x, to_nat_eq z, i)) in
      let own = spare a (omega (arith, to_nat_self a)) in
      record {
        hangs = record {
          up = IsRepHole-Same nil h a at.up (λ x i. spare x (omega (arith, i))) refl;
          there = at.down.0.there;
          parent = own.1 ∙ at.down.0.parent;
          apart = omega (arith, at.once a, to_nat_self a);
        };
        child = at.down.0.left;
        left = IsRep-Same nil l a at.down.1 (λ x i. spare x (omega (arith, i)));
        next = (
          record {
            there = n.there;
            parent = refl;
            left = n.left;
            right = ground arith;
            rest = n.rest;
          },
          tt,
          IsRep-reparent nil {s = s} {s' = handed s m b} r a m at.down.2
              (λ x. omega (arith, once x))
              (λ x i.
                let kept = set_right-Same s m b x (λ z. omega (arith, once x, to_nat_eq z, i)) in
                record { allocated = refl; left = refl; right = kept.0.right; rest = kept.0.rest })
              (λ x i ne. (set_parent-Same s b m x ne).1) (λ i. ground arith),
        );
      }
