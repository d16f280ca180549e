-- ===== src/Rb/Statistics/Filled.antt =====
-- `test` of rbtree.c puts all nodes of its array into a red-black tree.
use dsa.Bst.Height.{num_cmp-IsOrder}
use dsa.Bst.{num_cmp}
use dsa.Numbers.Bag.{IsSorted-update, occurs-insort, update-ne}
use dsa.Numbers.{Values}
use dsa.Order.Length.{length-insort}
use dsa.Prelude.Int.{ℤ}
use dsa.Prelude.{
  ℕ, zero, suc, ◌+◌, ◌^◌, ◌<◌, ◌≤◌, ◌≡◌, ◌≢◌, inl, inr, refl, sym, ◌∙◌, ap, subst, false,
  Bool-cases, ◌==◌, ==→eq, ==→ne, to_nat_ne, length, update, arith,
}
use dsa.Rb.Defs.{Red}
use dsa.Rb.Insert.Whole.{IsFree, insert-Inserted}
use dsa.Rb.Sentinel.{IsSentinel}
use dsa.Rb.State.{IsRbTree}
use dsa.Rb.Statistics.Climb.{climb-level}
use dsa.Tree.Levels.{total, total-insort, level}
use dsa.Rb.Statistics.{clear, climb_all, fill}
use dsa.Store.Access.{set_parent-ok, set_left-ok, set_right-ok, set_rest-ok, increment-ok}
use dsa.Store.Returns.{Returns, returns, bind, mono}
use dsa.Store.{Ptr, null, Store, ok}
use dsa.Tree.Array.{IsArray, total_places, place-ne}
use dsa.Tree.Rep.{IsTree}
use dsa.Tree.Owned.{update_self}
use dsa.Tree.Locate.{occurs, occurs-inorder}
use dsa.Tree.Shape.{length-inorder}
use dsa.Tree.{Tree, inorder, size, count}

module _ (place : ℕ → Ptr) where
  module _ (nil : Ptr) (n : ℕ) where
    pub clear-allocated :
        (k j : ℕ) (s : Store Red)
        → IsArray place nil n s.allocated
        → j + k ≤ n
        → Returns (λ _ s'. s'.allocated ≡ s.allocated) (clear place k j s)
    unfolding clear
    clear-allocated zero j s array fit = returns refl
    clear-allocated (suc k) j s array fit =
        let p = place j in
        let there = array.there j (omega arith) in
        let s₁ : Store Red = record s { parent = update s.parent p null } in
        let s₂ : Store Red = record s₁ { left = update s.left p null } in
        let s₃ : Store Red = record s₂ { right = update s.right p null } in
        let s₄ : Store Red = record s₃ { rest = update s.rest p false } in
        rw
          (
            set_parent-ok s p there null,
            set_left-ok s₁ p there null,
            set_right-ok s₂ p there null,
            set_rest-ok s₃ p there false,
          )
          (clear-allocated k (j + 1) s₄ array (omega arith))

    pub climb_all-total :
        (fuel k j nh : ℕ) (s : Store Red) (t : Tree Red)
        → IsSentinel nil s
        → IsTree nil s t
        → size t + 1 < fuel
        → j + k < 2 ^ 31
        → nh + total_places place (λ x. level x t) k j < 2 ^ 31
        → ((i : ℕ) → j ≤ i → i < j + k → 0 < count (place i) t)
        → climb_all place fuel k j nh s ≡ ok (nh + total_places place (λ x. level x t) k j) s
    unfolding climb_all
    climb_all-total fuel zero j nh s t z at enough short fits all = ap (λ m. ok m s) (omega arith)
    climb_all-total fuel (suc k) j nh s t z at enough short fits all =
        rw
          (
            climb-level nil s z fuel t (place j) nh enough (omega (arith, fits))
                (all j (omega arith) (omega arith)) at,
            increment-ok j s (omega (arith, short)),
          )
          (climb_all-total fuel k (j + 1) (nh + level (place j) t) s t z at enough
              (omega (arith, short)) (omega (arith, fits))
              (λ i low high. all i (omega arith) (omega arith))
            ∙ ap (λ m. ok m s) (omega arith))

  module _ (nil : Ptr) (fuel : ℕ) (garbage : ℤ) (random : ℕ → ℤ) (n : ℕ) where
    -- the tree with the nodes before the `j`-th
    pub record Filled (j : ℕ) (val : Values) (s : Store Red) (t : Tree Red) : Type 0 where
      pub valid : IsRbTree (num_cmp val) nil s t
      pub small : size t ≡ j
      pub later : (i : ℕ) → j ≤ i → i < n → count (place i) t ≡ 0
      pub array : IsArray place nil n s.allocated
      pub numbers : (i : ℕ) → i < j → val (place i) ≡ random i

    -- the tree after `k` more nodes
    pub record Grown (k j : ℕ) (t : Tree Red) (val : Values) (s : Store Red) : Type 0 where
      pub tree : Tree Red
      pub filled : Filled (j + k) val s tree
      pub totals :
          (f : Ptr → ℕ) → total f (inorder tree) ≡ total f (inorder t) + total_places place f k j

    pub fill-Grown :
        (k j : ℕ) (val : Values) (s : Store Red) (t : Tree Red)
        → Filled j val s t
        → j + k ≤ n
        → n < fuel
        → n < 2 ^ 31
        → Returns (Grown k j t) (fill place nil fuel garbage random k j val s)
    unfolding fill
    fill-Grown zero j val s t here fit enough short = returns (record {
      tree = t;
      filled = subst (λ m. Filled m val s t) (omega arith) here;
      totals = λ f. omega arith;
    })
    fill-Grown (suc k) j val s t here fit enough short =
        let p = place j in
        let val' = update val p (random j) in
        let out = here.later j (omega arith) (omega arith) in
        let valid : IsRbTree (num_cmp val') nil s t = record {
          held = here.valid.held;
          colours = here.valid.colours;
          sorted =
              IsSorted-update val p (random j) (inorder t) (occurs-inorder p t ∙ out)
                here.valid.sorted;
        } in
        let free : IsFree nil s p t = record {
          there = here.array.there j (omega arith);
          apart = out;
          inner = here.array.apart j (omega arith);
        } in
        let l = here.small in
        bind
          (insert-Inserted (num_cmp val') nil p s t (num_cmp-IsOrder val') fuel garbage valid free
            (omega arith))
          λ _ s' i.
            let next : Filled (j + 1) val' s' i.tree = record {
              valid = i.valid;
              small = omega (
                arith,
                sym (length-inorder i.tree) ∙ ap length i.order,
                length-insort (num_cmp val') p (inorder t),
                length-inorder t,
                l,
              );
              later = λ q low high. omega (
                arith,
                sym (occurs-inorder (place q) i.tree) ∙ ap (occurs (place q)) i.order,
                occurs-insort (num_cmp val') (place q) p (inorder t),
                occurs-inorder (place q) t,
                here.later q (omega arith) high,
                to_nat_ne (place-ne q j high (omega arith) here.array (λ e. omega (arith, e))),
              );
              array = subst (IsArray place nil n) (sym i.allocated) here.array;
              numbers = λ q low. elim (Bool-cases (q == j)) [
                | inl e ↦
                    ap (λ x. val' (place x)) (==→eq e)
                    ∙ update_self val p (random j)
                    ∙ ap random (sym (==→eq e))
                | inr e ↦
                    let ne : place q ≢ p =
                      place-ne q j (omega arith) (omega arith) here.array (==→ne e) in
                    update-ne val p (random j) (place q) ne
                    ∙ here.numbers q (omega (arith, ==→ne e))
              ];
            } in
            rw (increment-ok j s' (omega (arith, fit, short))) (
              mono (fill-Grown k (j + 1) val' s' i.tree next (omega arith) enough short)
                λ val'' s'' g. record {
                  tree = g.tree;
                  filled = subst (λ m. Filled m val'' s'' g.tree) (omega arith) g.filled;
                  totals = λ f. omega (
                    arith,
                    g.totals f,
                    ap (total f) i.order,
                    total-insort f (num_cmp val') p (inorder t),
                  );
                })
