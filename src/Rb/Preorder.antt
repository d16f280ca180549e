-- ===== src/Rb/Preorder.antt =====
-- `rb_preorder`, with a callback that may destroy its node.
use dsa.Prelude.{
  ℕ, Bool, zero, suc, ◌+◌, ◌≤◌, ◌<◌, ◌≡◌, refl, ◌∙◌, ap, false, if◌then◌else◌, ltb, to_nat_eq,
  arith,
}
use dsa.Rb.Defs.{Red, is_nil, preorder}
use dsa.Rb.Sentinel.{IsSentinel, is_nil-sentinel, is_nil-node}
use dsa.Store.Access.{get_left-ok, get_right-ok}
use dsa.Store.Returns.{Returns, mono, of_eq, ran}
use dsa.Store.{Ptr, Store, ok, Cmd, pure, ◌>>=◌, ◌>>◌, and_then, live, free}
use dsa.Tree
use dsa.Tree.Frame.{IsRep-Same, Same-trans}
use dsa.Tree.Locate.{occurs-preorder}
use dsa.Tree.Owned.{Owned, freed-Owned}
use dsa.Tree.Rep.{Same, IsRep, IsTree}
use dsa.Tree.Visit.{visit, visit-append, IsVisitor, free-IsVisitor, visit-free}
use dsa.Tree.{Tree, leaf, node, ptr, count, size}

pub IsSentinel-Same :
    (nil : Ptr) (s s' : Store Red) → Same s s' nil → IsSentinel nil s → IsSentinel nil s'
unfolding live
IsSentinel-Same nil s s' same z = record {
  there = ground (arith, z.there, same.0.allocated);
  left = same.0.left ∙ z.left;
  right = same.0.right ∙ z.right;
  black = same.0.rest ∙ z.black;
}

module _ (nil : Ptr) (fn : Ptr → Cmd Red (Unit {0})) where
  abbrev pub unless_nil : ℕ → Ptr → Cmd Red (Unit {0})
  unless_nil k p = do empty ← is_nil p; if empty then pure tt else preorder k fn p

  -- the test before a call changes nothing, since the call makes it too
  pub unless_nil_run :
      (k : ℕ) (s s' : Store Red) (p : Ptr) (t : Tree Red)
      → IsSentinel nil s
      → IsRep nil s p t
      → size t < k
      → preorder k fn (ptr nil t) s ≡ ok tt s'
      → unless_nil k (ptr nil t) s ≡ ok tt s'
  unfolding preorder
  unless_nil_run zero s s' p t z d fuel run = absurd (omega arith)
  unless_nil_run (suc k) s s' p leaf z d fuel run =
      rw (is_nil-sentinel nil s z) (rw (is_nil-sentinel nil s z) at run)
  unless_nil_run (suc k) s s' p (node l a c r) z d fuel run =
      rw (is_nil-node nil s z p l a c r d) run

  -- and then goes on
  unless_nil_then :
      (k : ℕ) (s s' : Store Red) (p : Ptr) (t : Tree Red) (next : Cmd Red (Unit {0}))
      → IsSentinel nil s
      → IsRep nil s p t
      → unless_nil k (ptr nil t) s ≡ ok tt s'
      → (is_nil (ptr nil t)
            >>= (λ empty. (if empty then pure tt else preorder k fn (ptr nil t)) >> next))
          s
        ≡ next s'
  unless_nil_then k s s' p leaf next z d run =
      rw (is_nil-sentinel nil s z)
        (ap (λ m. and_then m (λ _. next)) (rw (is_nil-sentinel nil s z) at run))
  unless_nil_then k s s' p (node l a c r) next z d run =
      rw (is_nil-node nil s z p l a c r d)
        (ap (λ m. and_then m (λ _. next)) (rw (is_nil-node nil s z p l a c r d) at run))

  pub node_run :
      (k : ℕ) (s s₁ s₂ s₃ : Store Red) (p : Ptr) (l : Tree Red) (a : Ptr) (c : Red) (r : Tree Red)
      → IsSentinel nil s
      → IsRep nil s p (node l a c r)
      → IsSentinel nil s₁
      → IsRep nil s₁ a l
      → fn a s ≡ ok tt s₁
      → unless_nil k (ptr nil l) s₁ ≡ ok tt s₂
      → unless_nil k (ptr nil r) s₂ ≡ ok tt s₃
      → preorder (suc k) fn a s ≡ ok tt s₃
  unfolding preorder
  node_run k s s₁ s₂ s₃ p l a c r z (n, dl, dr) z₁ d₁ e₁ left right =
      rw
        (
          is_nil-node nil s z p l a c r (n, dl, dr),
          get_left-ok s a n.there,
          n.left,
          get_right-ok s a n.there,
          n.right,
          e₁,
        )
        (unless_nil_then k s₁ s₂ a l (unless_nil k (ptr nil r)) z₁ d₁ left ∙ right)

  node_visit :
      (s s₁ s₂ s₃ : Store Red) (l : Tree Red) (a : Ptr) (c : Red) (r : Tree Red)
      → fn a s ≡ ok tt s₁
      → visit fn (Tree.preorder l) s₁ ≡ ok tt s₂
      → visit fn (Tree.preorder r) s₂ ≡ ok tt s₃
      → visit fn (Tree.preorder (node l a c r)) s ≡ ok tt s₃
  node_visit s s₁ s₂ s₃ l a c r e₁ left right =
      rw e₁ (visit-append fn (Tree.preorder l) (Tree.preorder r) s₁ ∙ rw left right)

module _ (nil : Ptr) {fn : Ptr → Cmd Red (Unit {0})} (v : IsVisitor fn) where
  abbrev Walks : ℕ → Tree Red → Store Red → Type 0
  Walks k t s =
      (s' : Store Red) × (preorder k fn (ptr nil t) s ≡ ok tt s')
      × (visit fn (Tree.preorder t) s ≡ ok tt s')
      × ((x : Ptr) → count x t ≡ 0 → Same s s' x)

  preorder-Walks :
      (k : ℕ) (s : Store Red) (t : Tree Red) (p : Ptr)
      → size t < k
      → IsSentinel nil s
      → count nil t ≡ 0
      → IsRep nil s p t
      → ((x : Ptr) → count x t ≤ 1)
      → Walks k t s
  unfolding preorder
  preorder-Walks zero s t p fuel z apart d once = absurd (omega arith)
  preorder-Walks (suc k) s leaf p fuel z apart d once = (
    s,
    rw (is_nil-sentinel nil s z),
    refl,
    λ x o. (record { allocated = refl; left = refl; right = refl; rest = refl }, refl),
  )
  preorder-Walks (suc k) s (node l a c r) p fuel z apart (n, dl, dr) once =
      let (_, s₁, e₁, same₁) = ran (v.runs a s n.there) in
      let z₁ = IsSentinel-Same nil s s₁ (same₁ nil (λ e. omega (arith, apart, to_nat_eq e))) z in
      let kept = λ (x : Ptr) (i : 0 < count x l + count x r).
        same₁ x (λ e. omega (arith, once x, i, to_nat_eq e)) in
      let left = IsRep-Same nil l a dl (λ x i. kept x (omega (arith, i))) in
      let (s₂, run₂, list₂, same₂) =
        preorder-Walks k s₁ l a (omega arith) z₁ (omega arith) left (λ x. omega (arith, once x)) in
      let z₂ = IsSentinel-Same nil s₁ s₂ (same₂ nil (omega arith)) z₁ in
      let right =
        IsRep-Same nil r a dr
          (λ x i. Same-trans (kept x (omega (arith, i))) (same₂ x (omega (arith, once x, i)))) in
      let (s₃, run₃, list₃, same₃) =
        preorder-Walks k s₂ r a (omega arith) z₂ (omega arith) right (λ x. omega (arith, once x)) in
      (
        s₃,
        node_run nil fn k s s₁ s₂ s₃ p l a c r z (n, dl, dr) z₁ left e₁
            (unless_nil_run nil fn k s₁ s₂ a l z₁ left (omega arith) run₂)
            (unless_nil_run nil fn k s₂ s₃ a r z₂ right (omega arith) run₃),
        node_visit nil fn s s₁ s₂ s₃ l a c r e₁ list₂ list₃,
        λ x o.
            Same-trans (same₁ x (λ e. omega (arith, o, to_nat_eq e)))
              (Same-trans (same₂ x (omega (arith, o))) (same₃ x (omega (arith, o)))),
      )

-- the end of `main`: freeing in preorder frees every node of the tree, none twice, and reads no
-- freed node; all other memory, the sentinel with it, is as before
pub preorder-frees :
    (nil : Ptr) (fuel : ℕ) (s : Store Red) (t : Tree Red)
    → IsSentinel nil s
    → IsTree nil s t
    → size t < fuel
    → Returns
        (λ _ s'.
          (x : Ptr)
          → (s'.allocated x ≡ (if ltb 0 (count x t) then false else s.allocated x))
            × (count x t ≡ 0 → Same s s' x))
        (preorder fuel free s.root s)
preorder-frees nil fuel s t z at enough =
    let (s', run, list, same) =
      preorder-Walks nil free-IsVisitor fuel s t nil enough z (omega (arith, at.absent)) at.down
        (λ x. omega (arith, at.once x)) in
    of_eq tt s' (ap (λ n. preorder fuel free n s) at.up ∙ run) λ x. (
      visit-free (Tree.preorder t) s s' x list
          ∙ ap (λ n. if ltb 0 n then false else s.allocated x) (occurs-preorder x t),
      same x,
    )

pub preorder-frees-Owned :
    (nil : Ptr) (fuel : ℕ) (base : Ptr → Bool) (s : Store Red) (t : Tree Red)
    → IsSentinel nil s
    → IsTree nil s t
    → Owned base s t
    → size t < fuel
    → Returns (λ _ s'. (x : Ptr) → s'.allocated x ≡ base x) (preorder fuel free s.root s)
preorder-frees-Owned nil fuel base s t z at own enough =
    mono (preorder-frees nil fuel s t z at enough)
      λ _ s' q x. (q x).0 ∙ freed-Owned (count x t) (s.allocated x) (base x) (own x)
