-- ===== src/Bst/Main/Kept.antt =====
-- A number that is put in or taken out keeps the tree of `main` of bst.c, and changes the numbers in it as a bag.
use dsa.Bst.Delete.{delete-erase}
use dsa.Bst.Dot.{print_dot-lines}
use dsa.Bst.Find.{find-Finds}
use dsa.Bst.Height.{num_cmp-IsOrder}
use dsa.Bst.Insert.{IsNew, insert-insort}
use dsa.Bst.Main.{zeroed, add, remove}
use dsa.Bst.{Plain, num_cmp}
use dsa.Numbers.Bag.{IsSorted-update}
use dsa.Numbers.Change.{
  fresh-count, Changes, inserted-Changes, missing-Changes, erased-Changes, erased-count,
}
use dsa.Numbers.{Values}
use dsa.Order.{IsSorted, equal, erase}
use dsa.Prelude.Int.{ℤ, eqb_ℤ}
use dsa.Prelude.{
  ℕ, ◌+◌, ◌-◌, ◌<◌, ◌≡◌, ◌≢◌, inl, inr, refl, sym, ◌∙◌, ap, subst, to_nat, ==_true, ==_refl, true,
  false, some, update, arith,
}
use dsa.Store.Access.{live-not_null}
use dsa.Store.Returns.{Returns, returns, bind}
use dsa.Store.{Ptr, null, Store, live}
use dsa.Tree.Frame.{IsRep-Same}
use dsa.Tree.Locate.{occurs-inorder}
use dsa.Tree.Owned.{live-fresh, free-ok, IsRep-live, freed-Same, IsFresh}
use dsa.Tree.Printed.{printing, printed-Same}
use dsa.Tree.Rep.{IsTree, Same, Becomes}
use dsa.Tree.{Tree, inorder, size, count}

-- the tree that `main` holds, with the numbers of its nodes: the `struct num` on the stack is memory too
pub record IsSession (dummy : Ptr) (val : Values) (s : Store Plain) (t : Tree Plain) : Type 0 where
  pub tree : IsTree null s t
  pub sorted : IsSorted (num_cmp val) (inorder t)
  pub apart : count dummy t ≡ 0
  pub taken : s.allocated dummy ≡ true

IsTree-Same :
    (s s' : Store Plain) (t : Tree Plain)
    → IsTree null s t
    → ((x : Ptr) → 0 < count x t → Same s s' x)
    → s'.root ≡ s.root
    → IsTree null s' t
IsTree-Same s s' t at same e = record {
  up = e ∙ at.up;
  down = IsRep-Same null t null at.down same;
  once = at.once;
  absent = at.absent;
}

zeroed-Same : (s : Store Plain) (p x : Ptr) → x ≢ p → Same s (zeroed p s) x
zeroed-Same s p x ne = (
  record { allocated = ground arith; left = ground arith; right = ground arith; rest = refl },
  ground arith,
)

-- the number on the stack may change
pub IsSession-update :
    (dummy : Ptr) (val : Values) (s : Store Plain) (t : Tree Plain) (v : ℤ)
    → IsSession dummy val s t
    → IsSession dummy (update val dummy v) s t
IsSession-update dummy val s t v h = record {
  tree = h.tree;
  sorted = IsSorted-update val dummy v (inorder t) (occurs-inorder dummy t ∙ h.apart) h.sorted;
  apart = h.apart;
  taken = h.taken;
}

-- the output goes on
pub IsSession-printing :
    (dummy : Ptr) (val : Values) (s : Store Plain) (t : Tree Plain) (o : _)
    → IsSession dummy val s t
    → IsSession dummy val (printing s o) t
IsSession-printing dummy val s t o h = record {
  tree = IsTree-Same s (printing s o) t h.tree (λ x i. printed-Same s _ x) refl;
  sorted = h.sorted;
  apart = h.apart;
  taken = h.taken;
}

module _ (dummy : Ptr) (val : Values) (s : Store Plain) (t : Tree Plain)
    (here : IsSession dummy val s t) where
  -- what a round leaves behind: `after` says how often a number is held, by how often it was
  pub record Kept (after : ℤ → ℕ → ℕ) (values : Values) (s' : Store Plain) : Type 0 where
    pub tree : Tree Plain
    pub session : IsSession dummy values s' tree
    pub changes : Changes dummy val s t here.apart here.taken after values s' tree

  -- the tree with what its change says
  Kept-Changes :
      (after : ℤ → ℕ → ℕ) (values : Values) (s' : Store Plain) (t' : Tree Plain)
      → IsTree null s' t'
      → IsSorted (num_cmp values) (inorder t')
      → Changes dummy val s t here.apart here.taken after values s' t'
      → Kept after values s'
  Kept-Changes after values s' t' at sorted ch = record {
    tree = t';
    session = record { tree = at; sorted = sorted; apart = ch.apart; taken = ch.taken };
    changes = ch;
  }

  Kept-printing :
      (after : ℤ → ℕ → ℕ) (values : Values) (s' : Store Plain) (o : _)
      → Kept after values s'
      → Kept after values (printing s' o)
  Kept-printing after values s' o k =
      Kept-Changes after values (printing s' o) k.tree
        (IsSession-printing dummy values s' k.tree o k.session).tree k.session.sorted
        (record {
          apart = k.changes.apart;
          taken = k.changes.taken;
          small = k.changes.small;
          owned = k.changes.owned;
          bag = k.changes.bag;
        })

  -- the state after `bst_delete` and `free`
  removed-Kept :
      (v : ℤ) (p : Ptr) (s₁ : Store Plain) (t' : Tree Plain)
      → 0 < count p t
      → equal (num_cmp (update val dummy v)) dummy p ≡ true
      → Becomes null s t t' s₁
      → inorder t' ≡ erase p (inorder t)
      → IsSorted (num_cmp (update val dummy v)) (inorder t')
      → Kept
          (λ w n. n - to_nat (eqb_ℤ v w))
          (update val dummy v)
          (record s₁ { allocated = update s₁.allocated p false })
  removed-Kept v p s₁ t' i e becomes order sorted =
      let gone = erased-count p t t' i (omega (arith, here.tree.once p)) order in
      let s₂ : Store Plain = record s₁ { allocated = update s₁.allocated p false } in
      Kept-Changes _ (update val dummy v) s₂ t'
        (IsTree-Same s₁ s₂ t' becomes.tree
          (λ x k. freed-Same s₁ p x (λ z. omega (arith, k, gone, ap (λ y. count y t') z))) refl)
        sorted
        (erased-Changes dummy val s t here.apart here.taken v p s₂ t' i e
          (ap (λ f. update f p false) becomes.allocated) order)

  module _ (left_field right_field : Ptr → Ptr) (fuel : ℕ) (garbage : ℤ) where
    -- A number that is put in, with a fresh node from `calloc` and with fuel for the nodes, is held once more; the tree is
    -- sorted, of one node more.
    pub add-Kept :
        (v : ℤ) (p : Ptr)
        → IsFresh s p
        → size t + 1 < fuel
        → Returns
            (λ r s'.
              (values : Values) × (r ≡ some values)
              × Kept (λ w n. n + to_nat (eqb_ℤ v w)) values s')
            (add dummy left_field right_field fuel garbage v (some p) val s)
    unfolding add
    add-Kept v p fresh enough =
        let val' = update val p v in
        let out = fresh-count null s p t here.tree.down fresh in
        let tree : IsTree null (zeroed p s) t =
          IsTree-Same s (zeroed p s) t here.tree
            (λ x i. zeroed-Same s p x (λ e. omega (arith, i, out, ap (λ y. count y t) e))) refl in
        let new : IsNew (zeroed p s) p t = record {
          there = live-fresh s.allocated p fresh.inner;
          no_left = rw (==_refl p) refl;
          no_right = rw (==_refl p) refl;
          apart = out;
        } in
        bind
          (insert-insort (num_cmp val') p (zeroed p s) t (num_cmp-IsOrder val') fuel garbage tree
            (IsSorted-update val p v (inorder t) (occurs-inorder p t ∙ out) here.sorted) new
            (omega arith))
          λ _ s' (t', becomes, order, sorted).
            let ch =
              inserted-Changes dummy val s t here.apart here.taken v p s' t' out fresh.spare
                becomes.allocated order in
            let k = Kept-Changes _ val' s' t' becomes.tree sorted ch in
            let small : size t' < fuel = omega (arith, ch.small, enough) in
            rw (print_dot-lines val' left_field right_field fuel s' t' becomes.tree small)
              (returns (val', refl, Kept-printing _ val' s' _ k))

    -- A number that is taken out is held once less if it was there; the tree is sorted, and has no more nodes.
    pub remove-Kept :
        (v : ℤ)
        → size t + 1 < fuel
        → Returns
            (Kept (λ w n. n - to_nat (eqb_ℤ v w)))
            (remove dummy left_field right_field fuel garbage v val s)
    unfolding remove
    remove-Kept v enough =
        let val' = update val dummy v in
        let out = occurs-inorder dummy t ∙ here.apart in
        let sorted' = IsSorted-update val dummy v (inorder t) out here.sorted in
        let (p, run, finds) =
          find-Finds (num_cmp val') dummy s (num_cmp-IsOrder val') fuel t here.tree sorted'
            (omega arith) in
        elim finds [
          | inr (e, misses) ↦
              rw (run, ==_true e)
                (returns (
                  Kept-Changes _ val' s t here.tree sorted'
                    (missing-Changes dummy val s t here.apart here.taken v misses)))
          | inl (i, e) ↦
              let there = IsRep-live null s null p t here.tree.down i in
              rw (run, live-not_null s.allocated p there)
                (bind (delete-erase (num_cmp val') fuel p s t here.tree sorted' i (omega arith))
                  λ _ s₁ (t', becomes, order, sorted).
                    let k = removed-Kept v p s₁ t' i e becomes order sorted in
                    let s₂ : Store Plain = record s₁ { allocated = update s₁.allocated p false } in
                    let there' = subst (λ f. live f p ≡ true) (sym becomes.allocated) there in
                    let small : size k.tree < fuel = omega (arith, k.changes.small) in
                    rw
                      (
                        free-ok s₁ p there',
                        print_dot-lines val' left_field right_field fuel s₂ k.tree k.session.tree
                            small,
                      )
                      (returns (Kept-printing _ val' s₂ _ k)))
        ]
