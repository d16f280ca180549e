-- ===== src/Rb/Dot.antt =====
-- `gen_dot` and `print_dot` of rbtree.c: the output for graphviz, without a command to pipe it to.
use dsa.Numbers.{Values}
use dsa.Prelude.{
  ℕ, zero, suc, ◌<◌, ◌≡◌, refl, sym, ◌∙◌, ap, Bool, true, false, ◌&&◌, if◌then◌else◌, List, [], ◌∷◌,
  ◌++◌, append_assoc, append-nil, arith,
}
use dsa.Rb.Defs.{Red, is_nil, preorder}
use dsa.Rb.Preorder.{IsSentinel-Same, unless_nil_run, node_run}
use dsa.Rb.Sentinel.{IsSentinel, is_nil-sentinel, is_nil-node}
use dsa.Store.Access.{get_left-ok, get_right-ok, get_rest-ok}
use dsa.Store.{
  Ptr, Store, Line, graph_line, style_line, end_line, node_line, edge_line, point_line, ok, Cmd,
  pure, ◌>>=◌, ◌>>◌, emit, get_left, get_right, get_rest,
}
use dsa.Tree.Frame.{IsRep-Same}
use dsa.Tree.Printed.{printing, printed-Same}
use dsa.Tree.Rep.{IsRep, IsTree}
use dsa.Tree.{Tree, leaf, node, ptr, size}

-- The address of the field `left` of a node stands for the child that it has not, and so for `right`.
module _ (val : Values) (left_field right_field : Ptr → Ptr) where
  unfoldable pub gen_dot : Ptr → Cmd Red (Unit {0})
  unfolding is_nil
  gen_dot n = do
    red ← get_rest n
    emit (node_line n (val n) red)
    l ← get_left n
    no_left ← is_nil l
    r ← get_right n
    no_right ← is_nil r
    if no_left && no_right then pure tt else do
      emit (edge_line n (if no_left then left_field n else l))
      emit (edge_line n (if no_right then right_field n else r))
      if no_left then emit (point_line (left_field n)) else pure tt
      if no_right then emit (point_line (right_field n)) else pure tt

  unfoldable pub print_dot : ℕ → Ptr → Cmd Red (Unit {0})
  unfolding gen_dot
  print_dot fuel n = do emit graph_line; emit style_line; preorder fuel gen_dot n; emit end_line

  -- the lines for one node: its children, or points for them where it has one child only
  abbrev edges : Tree Red → Ptr → Tree Red → List (Line Red)
  edges leaf a leaf = []
  edges leaf a (node l b c r) =
      edge_line a (left_field a) ∷ edge_line a b ∷ point_line (left_field a) ∷ []
  edges (node l b c r) a leaf =
      edge_line a b ∷ edge_line a (right_field a) ∷ point_line (right_field a) ∷ []
  edges (node l b c r) a (node l' b' c' r') = edge_line a b ∷ edge_line a b' ∷ []

  -- the lines for a tree
  abbrev pub dot : Tree Red → List (Line Red)
  dot leaf = []
  dot (node l a c r) = node_line a (val a) c ∷ (edges l a r ++ (dot l ++ dot r))

abbrev is_leaf : Tree Red → Bool
is_leaf leaf = true
is_leaf (node l a c r) = false

is_nil-ptr :
    (nil : Ptr) (s : Store Red) (p : Ptr) (t : Tree Red)
    → IsSentinel nil s
    → IsRep nil s p t
    → is_nil (ptr nil t) s ≡ ok (is_leaf t) s
is_nil-ptr nil s p leaf z d = is_nil-sentinel nil s z
is_nil-ptr nil s p (node l a c r) z d = is_nil-node nil s z p l a c r d

module _ (val : Values) (left_field right_field : Ptr → Ptr) (nil : Ptr) where
  -- the statements after the reads
  emitted :
      (s : Store Red) (l : Tree Red) (a : Ptr) (c : Red) (r : Tree Red)
      → (if is_leaf l && is_leaf r then pure tt else do
        emit (edge_line a (if is_leaf l then left_field a else ptr nil l))
        emit (edge_line a (if is_leaf r then right_field a else ptr nil r))
        if is_leaf l then emit (point_line (left_field a)) else pure tt
        if is_leaf r then emit (point_line (right_field a)) else pure tt)
          (printing s (node_line a (val a) c ∷ []))
        ≡ ok tt (printing s (node_line a (val a) c ∷ edges val left_field right_field l a r))
  emitted s leaf a c leaf = refl
  emitted s (node ll b d lr) a c leaf =
      ap (λ o. ok tt (record s { printed = o })) (simp append_assoc)
  emitted s leaf a c (node ll b d lr) =
      ap (λ o. ok tt (record s { printed = o })) (simp append_assoc)
  emitted s (node ll b d lr) a c (node rl e f rr) =
      ap (λ o. ok tt (record s { printed = o })) (simp append_assoc)

  gen_dot-lines :
      (s : Store Red) (p : Ptr) (l : Tree Red) (a : Ptr) (c : Red) (r : Tree Red)
      → IsSentinel nil s
      → IsRep nil s p (node l a c r)
      → gen_dot val left_field right_field a s
        ≡ ok tt (printing s (node_line a (val a) c ∷ edges val left_field right_field l a r))
  unfolding gen_dot
  gen_dot-lines s p l a c r z (n, dl, dr) =
      let s₁ = printing s (node_line a (val a) c ∷ []) in
      let z₁ = IsSentinel-Same nil s s₁ (printed-Same s _ nil) z in
      rw
        (
          get_rest-ok s a n.there,
          n.rest,
          get_left-ok s₁ a n.there,
          n.left,
          is_nil-ptr nil s₁ a l z₁ (IsRep-Same nil l a dl (λ x i. printed-Same s _ x)),
          get_right-ok s₁ a n.there,
          n.right,
          is_nil-ptr nil s₁ a r z₁ (IsRep-Same nil r a dr (λ x i. printed-Same s _ x)),
        )
        (emitted s l a c r)

  preorder-lines :
      (k : ℕ) (s : Store Red) (t : Tree Red) (p : Ptr)
      → size t < k
      → IsSentinel nil s
      → IsRep nil s p t
      → preorder k (gen_dot val left_field right_field) (ptr nil t) s
        ≡ ok tt (printing s (dot val left_field right_field t))
  unfolding preorder
  preorder-lines zero s t p fuel z d = absurd (omega arith)
  preorder-lines (suc k) s leaf p fuel z d =
      rw (is_nil-sentinel nil s z)
        (ap (λ o. ok tt (record s { printed = o })) (sym (append-nil s.printed)))
  preorder-lines (suc k) s (node l a c r) p fuel z (n, dl, dr) =
      let fn = gen_dot val left_field right_field in
      let head = node_line a (val a) c ∷ edges val left_field right_field l a r in
      let s₁ = printing s head in
      let s₂ = printing s₁ (dot val left_field right_field l) in
      let s₃ = printing s₂ (dot val left_field right_field r) in
      let z₁ = IsSentinel-Same nil s s₁ (printed-Same s _ nil) z in
      let z₂ = IsSentinel-Same nil s s₂ (printed-Same s _ nil) z in
      let left = IsRep-Same nil l a dl (λ x i. printed-Same s _ x) in
      let right = IsRep-Same nil r a dr (λ x i. printed-Same s _ x) in
      node_run nil fn k s s₁ s₂ s₃ p l a c r z (n, dl, dr) z₁ left
        (gen_dot-lines s p l a c r z (n, dl, dr))
        (unless_nil_run nil fn k s₁ s₂ a l z₁ left (omega arith)
          (preorder-lines k s₁ l a (omega arith) z₁ left))
        (unless_nil_run nil fn k s₂ s₃ a r z₂ right (omega arith)
          (preorder-lines k s₂ r a (omega arith) z₂ right))
      ∙ ap (λ o. ok tt (record s { printed = o })) (simp append_assoc)

  -- `print_dot` of the root of a tree with its sentinel prints a graph with a line for each node, its number and its
  -- colour, a node before those below it, with an edge to each child, and with a point for a child that is missing
  -- where the node has one child; it changes nothing else
  pub print_dot-dot :
      (fuel : ℕ) (s : Store Red) (t : Tree Red)
      → IsSentinel nil s
      → IsTree nil s t
      → size t < fuel
      → print_dot val left_field right_field fuel s.root s
        ≡ ok tt (
            printing s
              (graph_line ∷ style_line ∷ (dot val left_field right_field t ++ (end_line ∷ []))))
  unfolding print_dot
  print_dot-dot fuel s t z at enough =
      let s₁ = printing (printing s (graph_line ∷ [])) (style_line ∷ []) in
      let run =
        preorder-lines fuel s₁ t nil enough (IsSentinel-Same nil s s₁ (printed-Same s _ nil) z)
          (IsRep-Same nil t nil at.down (λ x i. printed-Same s _ x)) in
      rw (ap (λ p. preorder fuel (gen_dot val left_field right_field) p s₁) at.up ∙ run)
        (ap (λ o. ok tt (record s { printed = o })) (simp append_assoc))
