-- ===== src/Tree/Frame.antt =====
-- A change of the store that spares the nodes of a tree keeps the tree.
use dsa.Prelude.{◌≤◌, ◌<◌, ◌≡◌, ◌≢◌, ◌∙◌, update, arith}
use dsa.Store.{Ptr, Store, live}
use dsa.Tree.{Tree, leaf, node, Hole, top, on_left, on_right, ptr, count, count_hole}
use dsa.Tree.Rep.{IsNode, SameBelow, Same, IsRep, IsRepHole}

module _ {T : Type 0} where
  IsNode-Same :
      {s s' : Store T} {a p l r : Ptr} {c : T} (q : Ptr)
      → IsNode s a p l r c
      → SameBelow s s' a
      → s'.parent a ≡ q
      → IsNode s' a q l r c
  unfolding live
  IsNode-Same q n same e = ground arith

module _ {T : Type 0} where
  pub Same-trans : {s t u : Store T} {x : Ptr} → Same s t x → Same t u x → Same s u x
  Same-trans p q = ground arith

  pub set_parent-Same :
      (s : Store T) (a w x : Ptr) → x ≢ a → Same s (record s { parent = update s.parent a w }) x
  set_parent-Same s a w x ne = ground arith

  pub set_left-Same :
      (s : Store T) (a w x : Ptr) → x ≢ a → Same s (record s { left = update s.left a w }) x
  set_left-Same s a w x ne = ground arith

  pub set_right-Same :
      (s : Store T) (a w x : Ptr) → x ≢ a → Same s (record s { right = update s.right a w }) x
  set_right-Same s a w x ne = ground arith

  pub set_rest-Same :
      (s : Store T) (a : Ptr) (w : T) (x : Ptr)
      → x ≢ a
      → Same s (record s { rest = update s.rest a w }) x
  set_rest-Same s a w x ne = ground arith

module _ {T : Type 0} (nil : Ptr) {s s' : Store T} where
  -- the nodes are untouched
  pub IsRep-Same :
      (t : Tree T) (p : Ptr)
      → IsRep nil s p t
      → ((x : Ptr) → 0 < count x t → Same s s' x)
      → IsRep nil s' p t
  IsRep-Same leaf p d same = tt
  IsRep-Same (node l a c r) p (n, dl, dr) same = (
    IsNode-Same p n (same a (ground arith)).0 ((same a (ground arith)).1 ∙ n.parent),
    IsRep-Same l a dl (λ x i. same x (omega arith)),
    IsRep-Same r a dr (λ x i. same x (omega arith)),
  )

  -- only the parent of the tree's root is written
  pub IsRep-reparent :
      (t : Tree T) (p q : Ptr)
      → IsRep nil s p t
      → ((x : Ptr) → count x t ≤ 1)
      → ((x : Ptr) → 0 < count x t → SameBelow s s' x)
      → ((x : Ptr) → 0 < count x t → x ≢ ptr nil t → s'.parent x ≡ s.parent x)
      → (0 < count (ptr nil t) t → s'.parent (ptr nil t) ≡ q)
      → IsRep nil s' q t
  IsRep-reparent leaf p q d once below others own = tt
  IsRep-reparent (node l a c r) p q (n, dl, dr) once below others own = (
    IsNode-Same q n (below a (ground arith)) (own (ground (arith, once a))),
    IsRep-Same l a dl
        (λ x i. (below x (omega arith), others x (omega arith) (ground (arith, once x)))),
    IsRep-Same r a dr
        (λ x i. (below x (omega arith), others x (omega arith) (ground (arith, once x)))),
  )

  pub IsRepHole-Same :
      (h : Hole T) (q : Ptr)
      → IsRepHole nil s q h
      → ((x : Ptr) → 0 < count_hole x h → Same s s' x)
      → s'.root ≡ s.root
      → IsRepHole nil s' q h
  IsRepHole-Same top q d same e = e ∙ d
  IsRepHole-Same (on_left a c r up) q (n, dr, d) same e = (
    IsNode-Same _ n (same a (ground arith)).0 ((same a (ground arith)).1 ∙ n.parent),
    IsRep-Same r a dr (λ x i. same x (omega arith)),
    IsRepHole-Same up a d (λ x i. same x (omega arith)) e,
  )
  IsRepHole-Same (on_right l a c up) q (n, dl, d) same e = (
    IsNode-Same _ n (same a (ground arith)).0 ((same a (ground arith)).1 ∙ n.parent),
    IsRep-Same l a dl (λ x i. same x (omega arith)),
    IsRepHole-Same up a d (λ x i. same x (omega arith)) e,
  )
