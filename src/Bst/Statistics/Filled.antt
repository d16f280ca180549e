-- ===== src/Bst/Statistics/Filled.antt =====
-- `test` of bst.c puts all nodes of its array into a tree.
use dsa.Bst.Height.{num_cmp-IsOrder}
use dsa.Bst.Insert.{IsNew, insert-insort}
use dsa.Bst.Statistics.Climb.{climb-level}
use dsa.Bst.Statistics.{clear, climb_all, fill}
use dsa.Bst.{Plain, num_cmp}
use dsa.Numbers.Bag.{IsSorted-update, occurs-insort, update-ne}
use dsa.Numbers.{Values}
use dsa.Order.Length.{length-insort}
use dsa.Order.{IsSorted}
use dsa.Prelude.Int.{ℤ}
use dsa.Prelude.{
  ℕ, zero, suc, ◌+◌, ◌^◌, ◌<◌, ◌≤◌, ◌≡◌, ◌⊎◌, inl, inr, refl, sym, ◌∙◌, ap, subst, Bool-cases, ◌==◌,
  ==→eq, ==→ne, ==_refl, to_nat_ne, length, update, arith,
}
use dsa.Store.Access.{set_parent-ok, set_left-ok, set_right-ok, increment-ok}
use dsa.Store.Returns.{Returns, returns, bind, mono}
use dsa.Store.{Ptr, null, Store, ok}
use dsa.Tree.Array.{IsArray, total_places, place-ne}
use dsa.Tree.Levels.{total, total-insort, level}
use dsa.Tree.Locate.{occurs, occurs-inorder}
use dsa.Tree.Owned.{update_self}
use dsa.Tree.Rep.{IsTree}
use dsa.Tree.Shape.{length-inorder}
use dsa.Tree.{Tree, inorder, size, count}

module _ (place : ℕ → Ptr) (n : ℕ) where
  -- the nodes from the `j`-th to the `i`-th have no children
  pub record IsBlank (s : Store Plain) (j i : ℕ) : Type 0 where
    pub no_left : (q : ℕ) → j ≤ q → q < i → s.left (place q) ≡ null
    pub no_right : (q : ℕ) → j ≤ q → q < i → s.right (place q) ≡ null

  update-null : (f : Ptr → Ptr) (p x : Ptr) → (x ≡ p) ⊎ (f x ≡ null) → update f p null x ≡ null
  update-null f p x (inl e) = rw (e, ==_refl p) refl
  update-null f p x (inr e) = ground (arith, e)

  pub clear-IsBlank :
      (k j i : ℕ) (s : Store Plain)
      → IsArray place null n s.allocated
      → j + k ≤ n
      → i ≤ j
      → IsBlank s i j
      → Returns
          (λ _ s'. (s'.allocated ≡ s.allocated) × (s'.root ≡ s.root) × IsBlank s' i (j + k))
          (clear place k j s)
  unfolding clear
  clear-IsBlank zero j i s array fit low blank =
      returns (refl, refl, subst (IsBlank s i) (omega arith) blank)
  clear-IsBlank (suc k) j i s array fit low blank =
      let p = place j in
      let there = array.there j (omega arith) in
      let s₁ : Store Plain = record s { parent = update s.parent p null } in
      let s₂ : Store Plain = record s₁ { left = update s.left p null } in
      let s₃ : Store Plain = record s₂ { right = update s.right p null } in
      let here = λ (q : ℕ) (high : q < j + 1) (f : Ptr → Ptr) (e : q < j → f (place q) ≡ null).
        update-null f p (place q) (elim (Bool-cases (q == j)) [
          | inl g ↦ inl (ap place (==→eq g))
          | inr g ↦ inr (e (omega (arith, ==→ne g)))
        ]) in
      let blank' : IsBlank s₃ i (j + 1) = record {
        no_left = λ q l h. here q h s.left (λ m. blank.no_left q l m);
        no_right = λ q l h. here q h s.right (λ m. blank.no_right q l m);
      } in
      rw (set_parent-ok s p there null, set_left-ok s₁ p there null, set_right-ok s₂ p there null)
        (mono (clear-IsBlank k (j + 1) i s₃ array (omega arith) (omega arith) blank')
          λ _ s' (a, r, b). (a, r, subst (IsBlank s' i) (omega arith) b))

  pub climb_all-total :
      (fuel k j nh : ℕ) (s : Store Plain) (t : Tree Plain)
      → IsTree null s t
      → size t + 1 < fuel
      → j + k < 2 ^ 31
      → nh + total_places place (λ x. level x t) k j < 2 ^ 31
      → ((i : ℕ) → j ≤ i → i < j + k → 0 < count (place i) t)
      → climb_all place fuel k j nh s ≡ ok (nh + total_places place (λ x. level x t) k j) s
  unfolding climb_all
  climb_all-total fuel zero j nh s t at enough short fits all = ap (λ m. ok m s) (omega arith)
  climb_all-total fuel (suc k) j nh s t at enough short fits all =
      rw
        (
          climb-level s fuel t (place j) nh enough (omega (arith, fits))
              (all j (omega arith) (omega arith)) at,
          increment-ok j s (omega (arith, short)),
        )
        (climb_all-total fuel k (j + 1) (nh + level (place j) t) s t at enough
            (omega (arith, short)) (omega (arith, fits))
            (λ i low high. all i (omega arith) (omega arith))
          ∙ ap (λ m. ok m s) (omega arith))

  module _ (fuel : ℕ) (garbage : ℤ) (random : ℕ → ℤ) where
    -- the tree with the nodes before the `j`-th
    pub record Filled (j : ℕ) (val : Values) (s : Store Plain) (t : Tree Plain) : Type 0 where
      pub tree : IsTree null s t
      pub sorted : IsSorted (num_cmp val) (inorder t)
      pub small : size t ≡ j
      pub later : (i : ℕ) → j ≤ i → i < n → count (place i) t ≡ 0
      pub blank : IsBlank s j n
      pub array : IsArray place null n s.allocated
      pub numbers : (i : ℕ) → i < j → val (place i) ≡ random i

    -- the tree after `k` more nodes
    pub record Grown (k j : ℕ) (t : Tree Plain) (val : Values) (s : Store Plain) : Type 0 where
      pub tree : Tree Plain
      pub filled : Filled (j + k) val s tree
      pub totals :
          (f : Ptr → ℕ) → total f (inorder tree) ≡ total f (inorder t) + total_places place f k j

    pub fill-Grown :
        (k j : ℕ) (val : Values) (s : Store Plain) (t : Tree Plain)
        → Filled j val s t
        → j + k ≤ n
        → n < fuel
        → n < 2 ^ 31
        → Returns (Grown k j t) (fill place fuel garbage random k j val s)
    unfolding fill
    fill-Grown zero j val s t here fit enough short = returns (record {
      tree = t;
      filled = subst (λ m. Filled m val s t) (omega arith) here;
      totals = λ f. omega arith;
    })
    fill-Grown (suc k) j val s t here fit enough short =
        let p = place j in
        let val' = update val p (random j) in
        let out = here.later j (omega arith) (omega arith) in
        let new : IsNew s p t = record {
          there = here.array.there j (omega arith);
          no_left = here.blank.no_left j (omega arith) (omega arith);
          no_right = here.blank.no_right j (omega arith) (omega arith);
          apart = out;
        } in
        let l = here.small in
        let sorted =
          IsSorted-update val p (random j) (inorder t) (occurs-inorder p t ∙ out) here.sorted in
        bind
          (insert-insort (num_cmp val') p s t (num_cmp-IsOrder val') fuel garbage here.tree sorted
            new (omega arith))
          λ _ s' (t', becomes, order, sorted').
            let counts = λ (x : Ptr). sym (occurs-inorder x t') ∙ ap (occurs x) order in
            let later = λ (q : ℕ) (low : j + 1 ≤ q) (high : q < n).
              let ne = place-ne q j high (omega arith) here.array (λ e. omega (arith, e, low)) in
              let gone : count (place q) t' ≡ 0 = omega (
                arith,
                counts (place q),
                occurs-insort (num_cmp val') (place q) p (inorder t),
                occurs-inorder (place q) t,
                here.later q (omega arith) high,
                to_nat_ne ne,
              ) in
              gone in
            let same = λ (q : ℕ) (low : j + 1 ≤ q) (high : q < n).
              (becomes.same (place q)
                (omega (arith, later q low high, here.later q (omega arith) high))).0 in
            let next : Filled (j + 1) val' s' t' = record {
              tree = becomes.tree;
              sorted = sorted';
              small = omega (
                arith,
                sym (length-inorder t') ∙ ap length order,
                length-insort (num_cmp val') p (inorder t),
                length-inorder t,
                l,
              );
              later = later;
              blank = record {
                no_left =
                    λ q low high. (same q low high).left ∙ here.blank.no_left q (omega arith) high;
                no_right = λ q low high.
                    (same q low high).right ∙ here.blank.no_right q (omega arith) high;
              };
              array = subst (IsArray place null n) (sym becomes.allocated) here.array;
              numbers = λ q low. elim (Bool-cases (q == j)) [
                | inl e ↦
                    ap (λ x. val' (place x)) (==→eq e)
                    ∙ update_self val p (random j)
                    ∙ ap random (sym (==→eq e))
                | inr e ↦
                    let ne = place-ne q j (omega arith) (omega arith) here.array (==→ne e) in
                    update-ne val p (random j) (place q) ne
                    ∙ here.numbers q (omega (arith, ==→ne e))
              ];
            } in
            rw (increment-ok j s' (omega (arith, fit, short))) (
              mono (fill-Grown k (j + 1) val' s' t' next (omega arith) enough short) λ val'' s'' g.
                record {
                  tree = g.tree;
                  filled = subst (λ m. Filled m val'' s'' g.tree) (omega arith) g.filled;
                  totals = λ f. omega (
                    arith,
                    g.totals f,
                    ap (total f) order,
                    total-insort f (num_cmp val') p (inorder t),
                  );
                })
