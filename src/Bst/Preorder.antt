-- ===== src/Bst/Preorder.antt =====
-- `bst_preorder`, with a callback that may destroy its node.
use dsa.Prelude.{
  ℕ, Bool, zero, suc, ◌+◌, ◌≤◌, ◌<◌, ◌≡◌, refl, sym, ◌∙◌, ap, false, if◌then◌else◌, ltb, to_nat_eq,
  arith,
}
use dsa.Store.Access.{live-not_null, get_left-ok, get_right-ok}
use dsa.Store.Returns.{Returns, mono, of_eq, ran}
use dsa.Store.{Ptr, null, Store, ok, Cmd, free}
use dsa.Tree
use dsa.Tree.Frame.{IsRep-Same, Same-trans}
use dsa.Tree.Locate.{occurs-preorder}
use dsa.Tree.Owned.{Owned, freed-Owned}
use dsa.Tree.Rep.{Same, IsRep, IsTree}
use dsa.Tree.{Tree, leaf, node, ptr, count, size}
use dsa.Bst.{Plain, preorder}
use dsa.Tree.Visit.{visit, visit-append, IsVisitor, free-IsVisitor, visit-free}

module _ {fn : Ptr → Cmd Plain (Unit {0})} (v : IsVisitor fn) where
  abbrev Walks : ℕ → Tree Plain → Store Plain → Type 0
  Walks k t s =
      (s' : Store Plain) × (preorder k fn (ptr null t) s ≡ ok tt s')
      × (visit fn (Tree.preorder t) s ≡ ok tt s')
      × ((x : Ptr) → count x t ≡ 0 → Same s s' x)

  preorder-Walks :
      (k : ℕ) (s : Store Plain) (t : Tree Plain) (p : Ptr)
      → size t < k
      → IsRep null s p t
      → ((x : Ptr) → count x t ≤ 1)
      → Walks k t s
  unfolding preorder
  preorder-Walks zero s t p fuel d once = absurd (omega arith)
  preorder-Walks (suc k) s leaf p fuel d once = (
    s,
    refl,
    refl,
    λ x o. (record { allocated = refl; left = refl; right = refl; rest = refl }, refl),
  )
  preorder-Walks (suc k) s (node l a c r) p fuel (n, dl, dr) once =
      let (_, s₁, e₁, same₁) = ran (v.runs a s n.there) in
      let kept = λ (x : Ptr) (i : 0 < count x l + count x r).
        same₁ x (λ e. omega (arith, once x, i, to_nat_eq e)) in
      let (s₂, run₂, list₂, same₂) =
        preorder-Walks k s₁ l a (omega arith)
          (IsRep-Same null l a dl (λ x i. kept x (omega (arith, i))))
          (λ x. omega (arith, once x)) in
      let right =
        IsRep-Same null r a dr
          (λ x i. Same-trans (kept x (omega (arith, i))) (same₂ x (omega (arith, once x, i)))) in
      let (s₃, run₃, list₃, same₃) =
        preorder-Walks k s₂ r a (omega arith) right (λ x. omega (arith, once x)) in
      (
        s₃,
        rw
            (
              live-not_null s.allocated a n.there,
              get_left-ok s a n.there,
              n.left,
              get_right-ok s a n.there,
              n.right,
              e₁,
              run₂,
            )
            run₃,
        rw e₁ (visit-append fn (Tree.preorder l) (Tree.preorder r) s₁ ∙ rw list₂ list₃),
        λ x o.
            Same-trans (same₁ x (λ e. omega (arith, o, to_nat_eq e)))
              (Same-trans (same₂ x (omega (arith, o))) (same₃ x (omega (arith, o)))),
      )

  -- `bst_preorder` runs its callback once on each node, a node before those below it, though the
  -- callback may destroy the node that it is given
  pub preorder-visit :
      (fuel : ℕ) (s : Store Plain) (t : Tree Plain)
      → IsTree null s t
      → size t < fuel
      → (preorder fuel fn s.root s ≡ visit fn (Tree.preorder t) s)
        × Returns (λ _ s'. (x : Ptr) → count x t ≡ 0 → Same s s' x) (preorder fuel fn s.root s)
  preorder-visit fuel s t at enough =
      let (s', run, list, same) =
        preorder-Walks fuel s t null enough at.down (λ x. omega (arith, at.once x)) in
      let run' = ap (λ n. preorder fuel fn n s) at.up ∙ run in
      (run' ∙ sym list, of_eq tt s' run' same)

-- the end of `main`: freeing in preorder frees every node of the tree, none twice, and reads no
-- freed node; all other memory is as before
pub preorder-free :
    (fuel : ℕ) (s : Store Plain) (t : Tree Plain)
    → IsTree null s t
    → size t < fuel
    → Returns
        (λ _ s'.
          (x : Ptr)
          → (s'.allocated x ≡ (if ltb 0 (count x t) then false else s.allocated x))
            × (count x t ≡ 0 → Same s s' x))
        (preorder fuel free s.root s)
preorder-free fuel s t at enough =
    let (same, returned) = preorder-visit free-IsVisitor fuel s t at enough in
    let (_, s', run, spared) = ran returned in
    of_eq tt s' run λ x. (
      visit-free (Tree.preorder t) s s' x (sym same ∙ run)
          ∙ ap (λ n. if ltb 0 n then false else s.allocated x) (occurs-preorder x t),
      spared x,
    )

pub preorder-free-Owned :
    (fuel : ℕ) (base : Ptr → Bool) (s : Store Plain) (t : Tree Plain)
    → IsTree null s t
    → Owned base s t
    → size t < fuel
    → Returns (λ _ s'. (x : Ptr) → s'.allocated x ≡ base x) (preorder fuel free s.root s)
preorder-free-Owned fuel base s t at own enough =
    mono (preorder-free fuel s t at enough)
      λ _ s' q x. (q x).0 ∙ freed-Owned (count x t) (s.allocated x) (base x) (own x)
