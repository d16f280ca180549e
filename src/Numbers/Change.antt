-- ===== src/Numbers/Change.antt =====
-- What becomes of the memory and of the numbers of a tree when a node is put into it or taken out of it, in `main` of bst.c and of
-- rbtree.c: the part that both trees share.
use dsa.Bst.{num_cmp}
use dsa.Numbers.Bag.{
  holds-insort, Misses-holds, holds-update, missing-holds, erased-holds, equal-num_cmp,
  occurs-insort, occurs-erase,
}
use dsa.Numbers.{Values, holds}
use dsa.Order.Length.{length-insort, length-erase}
use dsa.Order.{Misses, equal, insort, erase}
use dsa.Prelude.Int.{ℤ, eqb_ℤ}
use dsa.Prelude.{
  ℕ, ◌+◌, ◌-◌, ◌<◌, ◌≤◌, ◌≡◌, ◌≢◌, inl, inr, sym, ◌∙◌, ap, subst, to_nat, to_nat_ne, to_nat_self,
  length, Bool, true, false, update, ◌==◌, arith,
}
use dsa.Store.{Ptr, Store}
use dsa.Tree.Locate.{occurs, occurs-inorder}
use dsa.Tree.Owned.{
  live-allocated, update-true, update-other, update_self, zero_or_pos, IsRep-live, Owned-more,
  Owned-less, Owned, IsFresh,
}
use dsa.Tree.Rep.{IsRep}
use dsa.Tree.Shape.{length-inorder}
use dsa.Tree.{Tree, inorder, size, count}

-- a node that no memory is at is not in the tree
pub fresh-count :
    {T : Type 0} (nil : Ptr) (s : Store T) (p : Ptr) (t : Tree T)
    → IsRep nil s nil t
    → IsFresh s p
    → count p t ≡ 0
fresh-count nil s p t at fresh = elim (zero_or_pos (count p t)) [
  | inl e ↦ e
  | inr i ↦
      let a = live-allocated s.allocated p (IsRep-live nil s nil p t at i) in
      let b = fresh.spare in cc
]

module _ {T : Type 0} (dummy : Ptr) (val : Values) (s : Store T) (t : Tree T)
    (out_dummy : count dummy t ≡ 0) (there : s.allocated dummy ≡ true) where
  -- the tree in the new store, which does not hold the `struct num` on the stack either; `after` says how often a number is
  -- held, by how often it was
  pub record Changes (after : ℤ → ℕ → ℕ) (values : Values) (s' : Store T) (t' : Tree T)
      : Type 0 where
    pub apart : count dummy t' ≡ 0
    pub taken : s'.allocated dummy ≡ true
    pub small : size t' ≤ size t + 1
    pub owned : (base : Ptr → Bool) → Owned base s t → Owned base s' t'
    pub bag : (w : ℤ) → holds values w (inorder t') ≡ after w (holds val w (inorder t))

  -- a fresh node that is put in
  pub inserted-Changes :
      (v : ℤ) (p : Ptr) (s' : Store T) (t' : Tree T)
      → count p t ≡ 0
      → s.allocated p ≡ false
      → s'.allocated ≡ update s.allocated p true
      → inorder t' ≡ insort (num_cmp (update val p v)) p (inorder t)
      → Changes (λ w n. n + to_nat (eqb_ℤ v w)) (update val p v) s' t'
  inserted-Changes v p s' t' out spare allocated order =
      let cmp = num_cmp (update val p v) in
      let other : dummy ≢ p = λ e. let b = subst (λ y. s.allocated y ≡ false) (sym e) spare in cc in
      let counts : (x : Ptr) → count x t' ≡ to_nat (x == p) + count x t = λ x.
        sym (occurs-inorder x t')
        ∙ ap (occurs x) order
        ∙ omega (arith, occurs-insort cmp x p (inorder t), occurs-inorder x t) in
      record {
        apart = omega (arith, counts dummy, out_dummy, to_nat_ne other);
        taken = ap (λ f. f dummy) allocated ∙ update-true s.allocated p dummy there;
        small = omega (
          arith,
          sym (length-inorder t') ∙ ap length order,
          length-insort cmp p (inorder t),
          length-inorder t,
        );
        owned = λ base own. Owned-more base s s' t t' p out spare allocated counts own;
        bag = λ w.
            ap (holds (update val p v) w) order
            ∙ holds-insort (update val p v) w cmp p (inorder t)
            ∙ omega (
              arith,
              holds-update val p v w (inorder t) (occurs-inorder p t ∙ out),
              ap (λ z. to_nat (eqb_ℤ z w)) (update_self val p v),
            );
      }

  module _ (v : ℤ) where
    abbrev val' : Values
    val' = update val dummy v

    -- a number that no node has, looked for with the `struct num` on the stack
    pub missing-Changes :
        Misses (num_cmp val') dummy (inorder t) → Changes (λ w n. n - to_nat (eqb_ℤ v w)) val' s t
    missing-Changes misses = record {
      apart = out_dummy;
      taken = there;
      small = omega arith;
      owned = λ base own. own;
      bag = λ w.
          missing-holds val dummy v w (inorder t) (occurs-inorder dummy t ∙ out_dummy)
            (Misses-holds val' dummy (inorder t) misses);
    }

    -- a node that compares equal to the `struct num` on the stack, taken out and freed
    pub erased-Changes :
        (p : Ptr) (s' : Store T) (t' : Tree T)
        → 0 < count p t
        → equal (num_cmp val') dummy p ≡ true
        → s'.allocated ≡ update s.allocated p false
        → inorder t' ≡ erase p (inorder t)
        → Changes (λ w n. n - to_nat (eqb_ℤ v w)) val' s' t'
    erased-Changes p s' t' i e allocated order =
        let other : dummy ≢ p = λ z. omega (arith, out_dummy, i, ap (λ y. count y t) z) in
        let i' : 0 < occurs p (inorder t) = omega (arith, occurs-inorder p t, i) in
        let counts : (x : Ptr) → count x t' + to_nat (x == p) ≡ count x t = λ x. omega (
          arith,
          sym (occurs-inorder x t') ∙ ap (occurs x) order,
          occurs-erase x p (inorder t) i',
          occurs-inorder x t,
        ) in
        record {
          apart = omega (arith, counts dummy, out_dummy);
          taken = ap (λ f. f dummy) allocated ∙ update-other s.allocated p dummy other ∙ there;
          small = omega (
            arith,
            sym (length-inorder t') ∙ ap length order,
            length-erase p (inorder t),
            length-inorder t,
          );
          owned = λ base own. Owned-less base s s' t t' p i allocated counts own;
          bag = λ w.
              ap (holds val' w) order
              ∙ erased-holds val dummy v w p (inorder t) (occurs-inorder dummy t ∙ out_dummy) i'
                  (sym (equal-num_cmp val' dummy p) ∙ e);
        }

-- a node that is taken out is no longer in the tree
pub erased-count :
    {T : Type 0} (p : Ptr) (t t' : Tree T)
    → 0 < count p t
    → count p t ≤ 1
    → inorder t' ≡ erase p (inorder t)
    → count p t' ≡ 0
erased-count p t t' i once order = omega (
  arith,
  sym (occurs-inorder p t') ∙ ap (occurs p) order,
  occurs-erase p p (inorder t) (omega (arith, occurs-inorder p t, i)),
  occurs-inorder p t,
  once,
  to_nat_self p,
)
