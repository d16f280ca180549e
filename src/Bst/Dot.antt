-- ===== src/Bst/Dot.antt =====
-- `gen_dot` and `print_dot` of bst.c: the output for graphviz, without a command to pipe it to.
use dsa.Bst.{Plain, preorder}
use dsa.Numbers.{Values}
use dsa.Prelude.{
  ℕ, zero, suc, ◌<◌, ◌==◌, ◌≡◌, refl, sym, ◌∙◌, ap, Bool, true, false, if◌then◌else◌, List, [], ◌∷◌,
  ◌++◌, append_assoc, append-nil, arith,
}
use dsa.Store.Access.{get_left-ok, get_right-ok, live-not_null}
use dsa.Store.{
  Ptr, null, Store, Line, graph_line, end_line, node_line, edge_line, point_line, ok, Cmd, pure,
  ◌>>=◌, ◌>>◌, emit, get_left, get_right,
}
use dsa.Tree.Frame.{IsRep-Same}
use dsa.Tree.Printed.{printing, printed-Same}
use dsa.Tree.Rep.{IsRep, IsTree}
use dsa.Tree.{Tree, leaf, node, ptr, size}

-- The address of the field `left` of a node stands for the child that it has not, and so for `right`.
module _ (val : Values) (left_field right_field : Ptr → Ptr) where
  unfoldable pub gen_dot : Ptr → Cmd Plain (Unit {0})
  gen_dot n = do
    l ← get_left n
    r ← get_right n
    emit (node_line n (val n) tt)
    emit (edge_line n (if l == null then left_field n else l))
    emit (edge_line n (if r == null then right_field n else r))
    if l == null then emit (point_line (left_field n)) else pure tt
    if r == null then emit (point_line (right_field n)) else pure tt

  unfoldable pub print_dot : ℕ → Ptr → Cmd Plain (Unit {0})
  unfolding gen_dot
  print_dot fuel n = do emit graph_line; preorder fuel gen_dot n; emit end_line

  -- the edges from a node, and a point for each child that is missing
  abbrev edges : Tree Plain → Ptr → Tree Plain → List (Line Plain)
  edges leaf a leaf =
      edge_line a (left_field a)
      ∷ edge_line a (right_field a)
      ∷ point_line (left_field a)
      ∷ point_line (right_field a)
      ∷ []
  edges leaf a (node l b c r) =
      edge_line a (left_field a) ∷ edge_line a b ∷ point_line (left_field a) ∷ []
  edges (node l b c r) a leaf =
      edge_line a b ∷ edge_line a (right_field a) ∷ point_line (right_field a) ∷ []
  edges (node l b c r) a (node l' b' c' r') = edge_line a b ∷ edge_line a b' ∷ []

  -- the lines for a tree
  abbrev pub dot : Tree Plain → List (Line Plain)
  dot leaf = []
  dot (node l a c r) = node_line a (val a) tt ∷ (edges l a r ++ (dot l ++ dot r))

abbrev is_leaf : Tree Plain → Bool
is_leaf leaf = true
is_leaf (node l a c r) = false

null-ptr :
    (s : Store Plain) (p : Ptr) (t : Tree Plain)
    → IsRep null s p t
    → (ptr null t == null) ≡ is_leaf t
null-ptr s p leaf d = refl
null-ptr s p (node l a c r) d = live-not_null s.allocated a d.0.there

module _ (val : Values) (left_field right_field : Ptr → Ptr) where
  -- the statements after the reads
  emitted :
      (s : Store Plain) (l : Tree Plain) (a : Ptr) (r : Tree Plain)
      → (do
        emit (node_line a (val a) tt)
        emit (edge_line a (if is_leaf l then left_field a else ptr null l))
        emit (edge_line a (if is_leaf r then right_field a else ptr null r))
        if is_leaf l then emit (point_line (left_field a)) else pure tt
        if is_leaf r then emit (point_line (right_field a)) else pure tt)
          s
        ≡ ok tt (printing s (node_line a (val a) tt ∷ edges val left_field right_field l a r))
  emitted s leaf a leaf = ap (λ o. ok tt (record s { printed = o })) (simp append_assoc)
  emitted s (node ll b d lr) a leaf = ap (λ o. ok tt (record s { printed = o })) (simp append_assoc)
  emitted s leaf a (node ll b d lr) = ap (λ o. ok tt (record s { printed = o })) (simp append_assoc)
  emitted s (node ll b d lr) a (node rl e f rr) =
      ap (λ o. ok tt (record s { printed = o })) (simp append_assoc)

  gen_dot-lines :
      (s : Store Plain) (p : Ptr) (l : Tree Plain) (a : Ptr) (c : Plain) (r : Tree Plain)
      → IsRep null s p (node l a c r)
      → gen_dot val left_field right_field a s
        ≡ ok tt (printing s (node_line a (val a) tt ∷ edges val left_field right_field l a r))
  unfolding gen_dot
  gen_dot-lines s p l a c r (n, dl, dr) =
      rw
        (
          get_left-ok s a n.there,
          n.left,
          get_right-ok s a n.there,
          n.right,
          null-ptr s a l dl,
          null-ptr s a r dr,
        )
        (emitted s l a r)

  preorder-lines :
      (k : ℕ) (s : Store Plain) (t : Tree Plain) (p : Ptr)
      → size t < k
      → IsRep null s p t
      → preorder k (gen_dot val left_field right_field) (ptr null t) s
        ≡ ok tt (printing s (dot val left_field right_field t))
  unfolding preorder
  preorder-lines zero s t p fuel d = absurd (omega arith)
  preorder-lines (suc k) s leaf p fuel d =
      ap (λ o. ok tt (record s { printed = o })) (sym (append-nil s.printed))
  preorder-lines (suc k) s (node l a c r) p fuel (n, dl, dr) =
      let head = node_line a (val a) tt ∷ edges val left_field right_field l a r in
      let s₁ = printing s head in
      let s₂ = printing s₁ (dot val left_field right_field l) in
      rw
        (
          live-not_null s.allocated a n.there,
          get_left-ok s a n.there,
          n.left,
          get_right-ok s a n.there,
          n.right,
          gen_dot-lines s p l a c r (n, dl, dr),
          preorder-lines k s₁ l a (omega arith)
              (IsRep-Same null l a dl (λ x i. printed-Same s _ x)),
          preorder-lines k s₂ r a (omega arith)
              (IsRep-Same null r a dr (λ x i. printed-Same s _ x)),
        )
        (ap (λ o. ok tt (record s { printed = o })) (simp append_assoc))

  -- `print_dot` of the root of a tree prints a graph with a line for each node and its number, a node before those
  -- below it, with an edge to each child, and with a point for each child that is missing; it changes nothing else
  pub print_dot-lines :
      (fuel : ℕ) (s : Store Plain) (t : Tree Plain)
      → IsTree null s t
      → size t < fuel
      → print_dot val left_field right_field fuel s.root s
        ≡ ok tt (printing s (graph_line ∷ (dot val left_field right_field t ++ (end_line ∷ []))))
  unfolding print_dot
  print_dot-lines fuel s t at enough =
      let s₁ = printing s (graph_line ∷ []) in
      let run =
        preorder-lines fuel s₁ t null enough
          (IsRep-Same null t null at.down (λ x i. printed-Same s _ x)) in
      rw (ap (λ p. preorder fuel (gen_dot val left_field right_field) p s₁) at.up ∙ run)
        (ap (λ o. ok tt (record s { printed = o })) (simp append_assoc))
