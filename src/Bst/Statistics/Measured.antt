-- ===== src/Bst/Statistics/Measured.antt =====
-- `test` of bst.c builds a sorted tree of all its nodes, and measures it.
use dsa.Bst.Height.{height_lem}
use dsa.Bst.Statistics.Filled.{IsBlank, clear-IsBlank, climb_all-total, Filled, Grown, fill-Grown}
use dsa.Bst.Statistics.{one_tree}
use dsa.Bst.{Plain, num_cmp}
use dsa.Numbers.{Values}
use dsa.Order.{IsSorted}
use dsa.Prelude.Int.{ℤ}
use dsa.Prelude.{ℕ, ◌+◌, ◌^◌, ◌<◌, ◌==◌, ◌≡◌, refl, sym, subst, to_nat, to_nat_self, arith}
use dsa.Store.Returns.{Returns, returns, bind}
use dsa.Store.{Ptr, null, Store}
use dsa.Tree
use dsa.Tree.Array.{IsArray, total_places, total_places-ge}
use dsa.Tree.Levels.{total-occurs, total-level, level, path_length, short_paths}
use dsa.Tree.Locate.{occurs-inorder}
use dsa.Tree.Rep.{IsTree}
use dsa.Tree.{Tree, leaf, inorder, size, count}

module _ (place : ℕ → Ptr) (fuel : ℕ) (garbage : ℤ) (random : ℕ → ℤ) (n : ℕ) where
  -- the tree that `test` measures, with its height and the sum of the heights of its nodes
  pub record Measured (h nh : ℕ) (s : Store Plain) : Type 0 where
    pub values : Values
    pub tree : Tree Plain
    pub held : IsTree null s tree
    pub sorted : IsSorted (num_cmp values) (inorder tree)
    pub nodes : size tree ≡ n
    pub numbers : (i : ℕ) → i < n → (0 < count (place i) tree) × (values (place i) ≡ random i)
    pub height : h ≡ Tree.height tree
    pub heights : nh ≡ path_length tree

  -- every node of the array is in the tree
  placed :
      (values : Values) (s : Store Plain) (g : Grown place n fuel garbage random n 0 leaf values s)
      (i : ℕ)
      → i < n
      → 0 < count (place i) g.tree
  placed values s g i low =
      let f = λ (y : Ptr). to_nat (place i == y) in
      omega (
        arith,
        total_places-ge place f n 0 i (omega arith) (omega arith),
        g.totals f,
        total-occurs (place i) (inorder g.tree),
        occurs-inorder (place i) g.tree,
        to_nat_self (place i),
      )

  -- `test` of bst.c, for one tree of the nodes of an array, less than 2^16 of them and with fuel for them, returns without a fault,
  -- its `int`s not overflowing. The nodes
  -- have the numbers of `random`, all are in a sorted tree, the first result is its height, and the second the sum,
  -- over the nodes, of the number of nodes on the way up to the root.
  pub one_tree-Heights :
      (s : Store Plain) (val : Values)
      → IsArray place null n s.allocated
      → n < 2 ^ 16
      → n + 1 < fuel
      → Returns (λ r s'. Measured r.0 r.1 s') (one_tree place fuel garbage random n val s)
  unfolding one_tree
  one_tree-Heights s val array few enough =
      let s₀ : Store Plain = record s { root = null } in
      bind
        (clear-IsBlank place n n 0 0 s₀ array (omega arith) (omega arith) (record {
          no_left = λ q l h. absurd (omega (arith, h));
          no_right = λ q l h. absurd (omega (arith, h));
        }))
        λ _ s₁ (same, root, blank).
          let start : Filled place n fuel garbage random 0 val s₁ leaf = record {
            tree = record { up = root; down = tt; once = λ x. omega arith; absent = refl };
            sorted = tt;
            small = refl;
            later = λ i low high. refl;
            blank = subst (IsBlank place n s₁ 0) (omega arith) blank;
            array = subst (IsArray place null n) (sym same) array;
            numbers = λ i low. absurd (omega (arith, low));
          } in
          bind
            (fill-Grown place n fuel garbage random n 0 val s₁ leaf start (omega arith)
              (omega arith) (omega (arith, few)))
            λ values s₂ g.
              let at = g.filled.tree in
              let size' = g.filled.small in
              let long : total_places place (λ x. level x g.tree) n 0 ≡ path_length g.tree = omega (
                arith,
                g.totals (λ x. level x g.tree),
                total-level g.tree (λ x. omega (arith, at.once x)),
              ) in
              let nodes' : size g.tree ≡ n = omega (arith, size') in
              let fits : path_length g.tree < 2 ^ 31 =
                short_paths g.tree (omega (arith, nodes', few)) in
              let climbed =
                climb_all-total place n fuel n 0 0 s₂ g.tree at (omega arith) (omega (arith, few))
                  (omega (arith, long, fits)) (λ i low high. placed values s₂ g i (omega arith)) in
              rw (height_lem s₂ fuel g.tree at (omega arith), climbed)
                (returns (record {
                  values = values;
                  tree = g.tree;
                  held = at;
                  sorted = g.filled.sorted;
                  nodes = omega arith;
                  numbers = λ i low. (placed values s₂ g i low, g.filled.numbers i (omega arith));
                  height = refl;
                  heights = omega (arith, long);
                }))
