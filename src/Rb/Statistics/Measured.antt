-- ===== src/Rb/Statistics/Measured.antt =====
-- `test` of rbtree.c builds a red-black tree of all its nodes, and measures it.
use dsa.Rb.Statistics.Filled.{clear-allocated, climb_all-total, Filled, Grown, fill-Grown}
use dsa.Bst.{num_cmp}
use dsa.Numbers.{Values}
use dsa.Prelude.Int.{ℤ}
use dsa.Prelude.{
  ℕ, ◌+◌, ◌^◌, ◌<◌, ◌≡◌, refl, sym, ◌∙◌, subst, true, ◌==◌, to_nat, to_nat_self, arith,
}
use dsa.Rb.Defs.{Red}
use dsa.Rb.Sentinel.{init-IsTree, init-allocated, height-longest}
use dsa.Rb.State.{IsRbTree}
use dsa.Tree.Array.{IsArray, total_places, total_places-ge}
use dsa.Tree.Levels.{total-occurs, total-level, level, path_length, short_paths}
use dsa.Rb.Statistics.{one_tree}
use dsa.Store.Returns.{Returns, returns, bind, ran, at_ok}
use dsa.Store.{Ptr, Store, live}
use dsa.Tree
use dsa.Tree.Locate.{occurs-inorder}
use dsa.Tree.{Tree, leaf, node, inorder, size, count}

module _ (place : ℕ → Ptr) (nil : Ptr) (fuel : ℕ) (garbage : ℤ) (random : ℕ → ℤ) (n : ℕ) where
  -- the tree that `test` measures, with its height and the sum of the heights of its nodes
  pub record Measured (h nh : ℕ) (s : Store Red) : Type 0 where
    pub values : Values
    pub tree : Tree Red
    pub valid : IsRbTree (num_cmp values) nil s tree
    pub nodes : size tree ≡ n
    pub numbers : (i : ℕ) → i < n → (0 < count (place i) tree) × (values (place i) ≡ random i)
    pub height : h ≡ Tree.height tree
    pub heights : nh ≡ path_length tree

  -- every node of the array is in the tree
  placed :
      (values : Values) (s : Store Red)
      (g : Grown place nil fuel garbage random n n 0 leaf values s) (i : ℕ)
      → i < n
      → 0 < count (place i) g.tree
  placed values s g i low =
      let f = λ (y : Ptr). to_nat (place i == y) in
      omega (
        arith,
        total_places-ge place f n 0 i (omega arith) (omega arith),
        g.totals f,
        total-occurs (place i) (inorder g.tree),
        occurs-inorder (place i) g.tree,
        to_nat_self (place i),
      )

  -- `test` of rbtree.c, for one tree of the nodes of an array, less than 2^16 of them and with fuel for them, returns without a
  -- fault, its `int`s not overflowing. The nodes
  -- have the numbers of `random`, all are in a sorted red-black tree, the first result is its height, and the second
  -- the sum, over the nodes, of the number of nodes on the way up to the root.
  pub one_tree-Measured :
      (s : Store Red) (val : Values)
      → IsArray place nil n s.allocated
      → live s.allocated nil ≡ true
      → n < 2 ^ 16
      → n + 1 < fuel
      → Returns (λ r s'. Measured r.0 r.1 s') (one_tree place nil fuel garbage random n val s)
  unfolding one_tree
  one_tree-Measured s val array there few enough =
      bind (clear-allocated place nil n n 0 s array (omega arith)) λ _ s₁ e.
        let there₁ = subst (λ f. live f nil ≡ true) (sym e) there in
        let (_, s₂, run, (empty, sentinel)) = ran (init-IsTree nil s₁ there₁) in
        let same = at_ok tt s₂ (init-allocated nil s₁ there₁) run in
        let start : Filled place nil fuel garbage random n 0 val s₂ leaf = record {
          valid = record {
            held = record { at = empty; sentinel = sentinel };
            colours = record { root = refl; height = 0; coloured = refl };
            sorted = tt;
          };
          small = refl;
          later = λ i low high. refl;
          array = subst (IsArray place nil n) (sym (same ∙ e)) array;
          numbers = λ i low. absurd (omega (arith, low));
        } in
        rw run (
          bind
            (fill-Grown place nil fuel garbage random n n 0 val s₂ leaf start (omega arith)
              (omega arith) (omega (arith, few)))
            λ values s₃ g.
              let valid = g.filled.valid in
              let at = valid.held.at in
              let z = valid.held.sentinel in
              let size' = g.filled.small in
              let long : total_places place (λ x. level x g.tree) n 0 ≡ path_length g.tree = omega (
                arith,
                g.totals (λ x. level x g.tree),
                total-level g.tree (λ x. omega (arith, at.once x)),
              ) in
              let nodes' : size g.tree ≡ n = omega (arith, size') in
              let fits : path_length g.tree < 2 ^ 31 =
                short_paths g.tree (omega (arith, nodes', few)) in
              let climbed =
                climb_all-total place nil n fuel n 0 0 s₃ g.tree z at (omega arith)
                  (omega (arith, few)) (omega (arith, long, fits))
                  (λ i low high. placed values s₃ g i (omega arith)) in
              rw (height-longest nil s₃ z fuel g.tree at (omega arith), climbed)
                (returns (record {
                  values = values;
                  tree = g.tree;
                  valid = valid;
                  nodes = omega arith;
                  numbers = λ i low. (placed values s₃ g i low, g.filled.numbers i (omega arith));
                  height = refl;
                  heights = omega (arith, long);
                })))
