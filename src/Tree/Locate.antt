-- ===== src/Tree/Locate.antt =====
-- The place of a node in a tree, and the tree's nodes in order when the node is taken out.
use dsa.Order.{erase}
use dsa.Prelude.{
  ◌+◌, ◌<◌, ◌≡◌, refl, sym, ◌∙◌, ap, inl, inr, ◌==◌, to_nat, ==→eq, Bool-cases, List, [], ◌∷◌, ◌++◌,
  append_assoc, ℕ, arith, ==_refl, ltb, append-nil,
}
use dsa.Store.{Ptr}
use dsa.Tree
use dsa.Tree.Lowest.{low_ptr, drop_low, inorder-low}
use dsa.Tree.Shape.{inorder-plug}
use dsa.Tree.{
  Tree, leaf, node, Hole, top, on_left, on_right, plug, count, count_hole, inorder, before, after,
}

-- how often a node stands in a list
abbrev pub occurs : Ptr → List Ptr → ℕ
occurs x [] = 0
occurs x (y ∷ ys) = to_nat (x == y) + occurs x ys

occurs-append : (x : Ptr) (xs ys : List Ptr) → occurs x (xs ++ ys) ≡ occurs x xs + occurs x ys
occurs-append x [] ys = omega arith
occurs-append x (y ∷ xs) ys = omega (arith, occurs-append x xs ys)

erase-middle : (x : Ptr) (xs ys : List Ptr) → occurs x xs ≡ 0 → erase x (xs ++ (x ∷ ys)) ≡ xs ++ ys
erase-middle x [] ys h = rw (==_refl x)
erase-middle x (y ∷ xs) ys h = elim (Bool-cases (x == y)) [
  | inl e ↦ absurd (ground (arith, e))
  | inr e ↦ rw e (ap (λ t. y ∷ t) (erase-middle x xs ys (omega arith)))
]

module _ {T : Type 0} where
  pub occurs-inorder : (x : Ptr) (t : Tree T) → occurs x (inorder t) ≡ count x t
  occurs-inorder x leaf = refl
  occurs-inorder x (node l a c r) =
      omega
        (arith, occurs-append x (inorder l) (a ∷ inorder r), occurs-inorder x l, occurs-inorder x r)

  pub occurs-preorder : (x : Ptr) (t : Tree T) → occurs x (Tree.preorder t) ≡ count x t
  occurs-preorder x leaf = refl
  occurs-preorder x (node l a c r) = omega (
    arith,
    occurs-append x (Tree.preorder l) (Tree.preorder r),
    occurs-preorder x l,
    occurs-preorder x r,
  )

  occurs-hole : (x : Ptr) (h : Hole T) → occurs x (before h) + occurs x (after h) ≡ count_hole x h
  occurs-hole x top = omega arith
  occurs-hole x (on_left a c r up) =
      omega (arith, occurs-append x (inorder r) (after up), occurs-inorder x r, occurs-hole x up)
  occurs-hole x (on_right l a c up) = omega (
    arith,
    occurs-append x (before up) (inorder l ++ (a ∷ [])),
    occurs-append x (inorder l) (a ∷ []),
    occurs-inorder x l,
    occurs-hole x up,
  )

  -- a node of a tree, with its place
  pub record Place (a : Ptr) (t : Tree T) : Type 0 where
    pub hole : Hole T
    pub left : Tree T
    pub tag : T
    pub right : Tree T
    pub whole : plug hole (node left a tag right) ≡ t

  pub locate : (a : Ptr) (h : Hole T) (t : Tree T) → 0 < count a t → Place a (plug h t)
  locate a h leaf i = elim i [ ]
  locate a h (node l b c r) i = elim (Bool-cases (a == b)) [
    | inl e ↦ record {
      hole = h;
      left = l;
      tag = c;
      right = r;
      whole = ap (λ x. plug h (node l x c r)) (==→eq e);
    }
    | inr ne ↦ elim (Bool-cases (ltb 0 (count a l))) [
      | inl e ↦ locate a (on_left b c r h) l (ground arith)
      | inr e ↦ locate a (on_right l b c h) r (ground arith)
    ]
  ]

  -- the two subtrees of a node, as one tree
  abbrev pub join : Tree T → Tree T → Tree T
  join leaf r = r
  join (node ll b c lr) leaf = node ll b c lr
  join (node ll b c lr) (node rl d e rr) =
      node (node ll b c lr) (low_ptr rl d) e (drop_low rl d e rr)

  inorder-join : (l r : Tree T) → inorder (join l r) ≡ inorder l ++ inorder r
  inorder-join leaf r = refl
  inorder-join (node ll b c lr) leaf = simp append-nil
  inorder-join (node ll b c lr) (node rl d e rr) =
      ap (λ xs. inorder (node ll b c lr) ++ xs) (sym (inorder-low rl d e rr))

  -- with its subtrees in its place a node is out of the order, and nothing else has moved
  pub inorder-plug-join :
      (h : Hole T) (l : Tree T) (a : Ptr) (c : T) (r : Tree T)
      → count_hole a h + count a l ≡ 0
      → inorder (plug h (join l r)) ≡ erase a (inorder (plug h (node l a c r)))
  inorder-plug-join h l a c r out =
      let front = before h ++ inorder l in
      let back = inorder r ++ after h in
      let e₁ : inorder (plug h (join l r)) ≡ front ++ back =
        inorder-plug h (join l r) ∙ simp (inorder-join l r, append_assoc) in
      let e₂ : inorder (plug h (node l a c r)) ≡ front ++ (a ∷ back) =
        inorder-plug h (node l a c r) ∙ simp append_assoc in
      e₁
      ∙ sym (
          ap (erase a) e₂
          ∙ erase-middle a front back (
              omega (
                arith,
                occurs-append a (before h) (inorder l),
                occurs-inorder a l,
                occurs-hole a h,
              )))
