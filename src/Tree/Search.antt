-- ===== src/Tree/Search.antt =====
-- Search in a tree: the reference definitions of insertion and lookup, and what they do to the
-- nodes in order.
use dsa.Order.{IsOrder, less, equal, NoneAbove, NoneBelow, IsSorted, insort, Misses}
use dsa.Order.Insort.{insort-front, insort-back}
use dsa.Order.Sorted.{IsSorted-append, NoneAbove-trans, Misses-above, Misses-below, Misses-join}
use dsa.Prelude.Int.{ℤ}
use dsa.Prelude.{
  ◌+◌, ◌<◌, ◌≡◌, ◌==◌, to_nat, refl, ap, ◌∙◌, sym, subst, ◌⊎◌, inl, inr, true, false, if◌then◌else◌,
  Bool-cases, ◌∷◌, ◌++◌, arith,
}
use dsa.Store.{Ptr, Store}
use dsa.Tree.Rep.{IsAt}
use dsa.Tree.Walk.{go_left, go_right}
use dsa.Tree.{Tree, leaf, node, Hole, on_left, on_right, plug, inorder, count, count_hole}

module _ {T : Type 0} (cmp : Ptr → Ptr → ℤ) (x : Ptr) where
  -- the free place to which a search for `x` leads that does not stop at an equal node
  abbrev pub descend : Hole T → Tree T → Hole T
  descend h leaf = h
  descend h (node l a c r) =
      if less cmp x a then descend (on_left a c r h) l else descend (on_right l a c h) r

  abbrev pub insert_tree : T → Tree T → Tree T
  insert_tree d leaf = node leaf x d leaf
  insert_tree d (node l a c r) =
      if less cmp x a then node (insert_tree d l) a c r else node l a c (insert_tree d r)

  -- the first equal node on the way down, or `nil`
  abbrev pub find_tree : Ptr → Tree T → Ptr
  find_tree nil leaf = nil
  find_tree nil (node l a c r) =
      if equal cmp x a then a else if less cmp x a then find_tree nil l else find_tree nil r

  pub plug-descend :
      (d : T) (h : Hole T) (t : Tree T)
      → plug (descend h t) (node leaf x d leaf) ≡ plug h (insert_tree d t)
  plug-descend d h leaf = refl
  plug-descend d h (node l a c r) = elim (Bool-cases (less cmp x a)) [
    | inl e ↦ rw e (plug-descend d (on_left a c r h) l)
    | inr e ↦ rw e (plug-descend d (on_right l a c h) r)
  ]

  pub count_hole-descend :
      (y : Ptr) (h : Hole T) (t : Tree T) → count_hole y (descend h t) ≡ count_hole y h + count y t
  count_hole-descend y h leaf = omega arith
  count_hole-descend y h (node l a c r) = elim (Bool-cases (less cmp x a)) [
    | inl e ↦ rw e (omega (arith, count_hole-descend y (on_left a c r h) l))
    | inr e ↦ rw e (omega (arith, count_hole-descend y (on_right l a c h) r))
  ]

  pub count-insert_tree :
      (y : Ptr) (d : T) (t : Tree T) → count y (insert_tree d t) ≡ to_nat (y == x) + count y t
  count-insert_tree y d leaf = omega arith
  count-insert_tree y d (node l a c r) = elim (Bool-cases (less cmp x a)) [
    | inl e ↦ rw e (omega (arith, count-insert_tree y d l))
    | inr e ↦ rw e (omega (arith, count-insert_tree y d r))
  ]

  -- in a sorted tree the reference insertion is ordered insertion
  pub inorder-insert_tree :
      (o : IsOrder cmp) (d : T) (t : Tree T)
      → IsSorted cmp (inorder t)
      → inorder (insert_tree d t) ≡ insort cmp x (inorder t)
  inorder-insert_tree o d leaf s = refl
  inorder-insert_tree o d (node l a c r) s =
      let p = IsSorted-append cmp (inorder l) a (inorder r) s in
      elim (Bool-cases (less cmp x a)) [
        | inl e ↦ rw e (
            ap (λ xs. xs ++ (a ∷ inorder r)) (inorder-insert_tree o d l p.low)
            ∙ sym (insort-front cmp x a (inorder l) (inorder r) e))
        | inr e ↦ rw e (
            ap (λ xs. inorder l ++ (a ∷ xs)) (inorder-insert_tree o d r p.high)
            ∙ sym (
                insort-back cmp x (inorder l) (a ∷ inorder r)
                  (NoneAbove-trans cmp o x a (inorder l) e p.upper)
                ∙ ap (λ xs. inorder l ++ xs) (rw e)))
      ]

  -- what a search answers: an equal node of the tree, or `nil` when there is none
  abbrev pub Finds : Ptr → Tree T → Ptr → Type 0
  Finds nil t p =
      ((0 < count p t) × (equal cmp x p ≡ true)) ⊎ ((p ≡ nil) × Misses cmp x (inorder t))

  module _ (nil : Ptr) (l : Tree T) (a : Ptr) (c : T) (r : Tree T) where
    Finds-left :
        (o : IsOrder cmp) (p : Ptr)
        → NoneBelow cmp a (inorder r)
        → equal cmp x a ≡ false
        → less cmp x a ≡ true
        → Finds nil l p
        → Finds nil (node l a c r) p
    Finds-left o p k ne e (inl (i, q)) = inl (omega arith, q)
    Finds-left o p k ne e (inr (z, m)) =
        inr (z, Misses-join cmp x (inorder l) _ m (ne, Misses-above cmp o x a (inorder r) e k))

    Finds-right :
        (o : IsOrder cmp) (p : Ptr)
        → NoneAbove cmp a (inorder l)
        → equal cmp x a ≡ false
        → less cmp x a ≡ false
        → Finds nil r p
        → Finds nil (node l a c r) p
    Finds-right o p k ne e (inl (i, q)) = inl (omega arith, q)
    Finds-right o p k ne e (inr (z, m)) =
        let gt : less cmp a x ≡ true = elim (Bool-cases (less cmp a x)) [
          | inl h ↦ h
          | inr h ↦ cc (o.equal_of x a e h, ne)
        ] in
        inr (z, Misses-join cmp x (inorder l) _ (Misses-below cmp o x a (inorder l) gt k) (ne, m))

  -- in a sorted tree a search finds an equal node if there is one
  pub find_tree-Finds :
      (o : IsOrder cmp) (nil : Ptr) (t : Tree T)
      → IsSorted cmp (inorder t)
      → Finds nil t (find_tree nil t)
  find_tree-Finds o nil leaf s = inr (refl, tt)
  find_tree-Finds o nil (node l a c r) s =
      let p = IsSorted-append cmp (inorder l) a (inorder r) s in
      let at = Finds nil (node l a c r) in
      elim (Bool-cases (equal cmp x a)) [
        | inl e ↦ subst at (sym (rw e)) (inl (ground arith, e))
        | inr ne ↦ elim (Bool-cases (less cmp x a)) [
          | inl e ↦
              subst at (sym (rw (ne, e)))
                (Finds-left nil l a c r o _ p.lower ne e (find_tree-Finds o nil l p.low))
          | inr e ↦
              subst at (sym (rw (ne, e)))
                (Finds-right nil l a c r o _ p.upper ne e (find_tree-Finds o nil r p.high))
        ]
      ]

module _ {T : Type 0} (cmp : Ptr → Ptr → ℤ) (x nil : Ptr) {s : Store T} where
  -- the way down keeps the store's tree in view
  pub IsAt-descend :
      (h : Hole T) (t : Tree T) → IsAt nil s h t → IsAt nil s (descend cmp x h t) leaf
  IsAt-descend h leaf at = at
  IsAt-descend h (node l a c r) at = elim (Bool-cases (less cmp x a)) [
    | inl e ↦ rw e (IsAt-descend (on_left a c r h) l (go_left nil h l a c r at))
    | inr e ↦ rw e (IsAt-descend (on_right l a c h) r (go_right nil h l a c r at))
  ]
