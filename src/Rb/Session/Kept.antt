-- ===== src/Rb/Session/Kept.antt =====
-- A command keeps the tree of `main`, and changes the numbers in it as a bag.
use dsa.Bst.Height.{num_cmp-IsOrder}
use dsa.Bst.{num_cmp}
use dsa.Prelude.Int.{ℤ}
use dsa.Prelude.{
  ℕ, ◌+◌, ◌<◌, ◌≤◌, ◌≡◌, ◌≢◌, inl, inr, refl, sym, ◌∙◌, ap, subst, ==_true, Bool, true, false,
  Option, none, some, ◌⊎◌, update, arith,
}
use dsa.Rb.Defs.{Red}
use dsa.Rb.Delete.Whole.{Deleted, delete-Deleted}
use dsa.Rb.Dot.{print_dot-dot}
use dsa.Tree.Printed.{printing, printed-Same}
use dsa.Rb.Find.{find-Found}
use dsa.Rb.Insert.Whole.{IsFree, insert-Inserted}
use dsa.Rb.Session.Memory.{Held-Same, zeroed-Same}
use dsa.Numbers.Bag.{IsSorted-update}
use dsa.Numbers.Change.{
  fresh-count, Changes, inserted-Changes, missing-Changes, erased-Changes, erased-count,
}
use dsa.Order.{equal}
use dsa.Numbers.{Values, holds}
use dsa.Rb.Session.{Command, insert_number, delete_number, print, zeroed, command, bag_step}
use dsa.Tree.Owned.{live-allocated, live-fresh, free-ok, IsRep-live, freed-Same, Owned, IsFresh}
use dsa.Rb.State.{IsRbTree}
use dsa.Store.Access.{live-not_null}
use dsa.Store.Returns.{Returns, returns, bind, mono}
use dsa.Store.{Ptr, Store, live}
use dsa.Tree.Locate.{occurs-inorder}
use dsa.Tree.{Tree, inorder, size, count}

-- the tree that `main` holds, with the numbers of its nodes: the `struct num` on the stack is memory too
pub record IsSession (nil dummy : Ptr) (val : Values) (s : Store Red) (t : Tree Red) : Type 0 where
  pub valid : IsRbTree (num_cmp val) nil s t
  pub apart : count dummy t ≡ 0
  pub taken : s.allocated dummy ≡ true

module _ (nil dummy : Ptr) (left_field right_field : Ptr → Ptr) (fuel : ℕ) (garbage : ℤ)
    (val : Values) (s : Store Red) (t : Tree Red) (here : IsSession nil dummy val s t) where
  -- what a command leaves behind
  pub record Kept (c : Command) (r : Option Values) (s' : Store Red) : Type 0 where
    pub values : Values
    pub tree : Tree Red
    pub result : r ≡ some values
    pub session : IsSession nil dummy values s' tree
    pub small : size tree ≤ size t + 1
    pub owned : (base : Ptr → Bool) → Owned base s t → Owned base s' tree
    pub bag : (w : ℤ) → holds values w (inorder tree) ≡ bag_step c (λ u. holds val u (inorder t)) w

  -- the tree with what its change says
  Kept-Changes :
      (c : Command) (after : ℤ → ℕ → ℕ) (values : Values) (s' : Store Red) (t' : Tree Red)
      → IsRbTree (num_cmp values) nil s' t'
      → Changes dummy val s t here.apart here.taken after values s' t'
      → ((w : ℤ) → bag_step c (λ u. holds val u (inorder t)) w ≡ after w (holds val w (inorder t)))
      → Kept c (some values) s'
  Kept-Changes c after values s' t' valid ch e = record {
    values = values;
    tree = t';
    result = refl;
    session = record { valid = valid; apart = ch.apart; taken = ch.taken };
    small = ch.small;
    owned = ch.owned;
    bag = λ w. ch.bag w ∙ sym (e w);
  }

  -- the tree before `rb_insert`, with the new number in the memory that `calloc` gave
  zeroed-IsRbTree :
      (v : ℤ) (p : Ptr)
      → IsFresh s p
      → count p t ≡ 0
      → p ≢ nil
      → IsRbTree (num_cmp (update val p v)) nil (zeroed p s) t
  zeroed-IsRbTree v p fresh out apart = record {
    held =
        Held-Same s (zeroed p s) t here.valid.held
          (λ x i. zeroed-Same s p x (λ e. omega (arith, i, out, ap (λ y. count y t) e)))
          (zeroed-Same s p nil (λ e. apart (sym e))).0 refl;
    colours = here.valid.colours;
    sorted = IsSorted-update val p v (inorder t) (occurs-inorder p t ∙ out) here.valid.sorted;
  }

  insert-Kept :
      (v : ℤ) (p : Ptr)
      → IsFresh s p
      → size t < fuel
      → Returns
          (Kept (insert_number v))
          (command nil dummy left_field right_field fuel garbage (insert_number v) (some p) val s)
  unfolding command
  insert-Kept v p fresh enough =
      let val' = update val p v in
      let held = here.valid.held in
      let out = fresh-count nil s p t held.at.down fresh in
      let apart : p ≢ nil = λ e.
        let a = live-allocated s.allocated nil held.sentinel.there in
        let b = subst (λ y. s.allocated y ≡ false) e fresh.spare in cc in
      let free : IsFree nil (zeroed p s) p t = record {
        there = live-fresh s.allocated p fresh.inner;
        apart = out;
        inner = apart;
      } in
      bind
        (insert-Inserted (num_cmp val') nil p (zeroed p s) t (num_cmp-IsOrder val') fuel garbage
          (zeroed-IsRbTree v p fresh out apart) free enough)
        λ _ s' i.
          let ch =
            inserted-Changes dummy val s t here.apart here.taken v p s' i.tree out fresh.spare
              i.allocated i.order in
          returns (Kept-Changes (insert_number v) _ val' s' i.tree i.valid ch (λ w. refl))

  module _ (v : ℤ) where
    abbrev val' : Values
    val' = update val dummy v

    found_valid : IsRbTree (num_cmp val') nil s t
    found_valid = record {
      held = here.valid.held;
      colours = here.valid.colours;
      sorted =
          IsSorted-update val dummy v (inorder t) (occurs-inorder dummy t ∙ here.apart)
            here.valid.sorted;
    }

    -- the state after `rb_delete` and `free`
    delete_node-Kept :
        (p : Ptr) (s₁ : Store Red)
        → 0 < count p t
        → equal (num_cmp val') dummy p ≡ true
        → Deleted (num_cmp val') nil p s t s₁
        → Kept (delete_number v) (some val') (record s₁ { allocated = update s₁.allocated p false })
    delete_node-Kept p s₁ i e d =
        let at = here.valid.held.at in
        let gone = erased-count p t d.tree i (omega (arith, at.once p)) d.order in
        let inner : nil ≢ p = λ z. omega (arith, at.absent, i, ap (λ y. count y t) z) in
        let s₂ : Store Red = record s₁ { allocated = update s₁.allocated p false } in
        let valid : IsRbTree (num_cmp val') nil s₂ d.tree = record {
          held =
              Held-Same s₁ s₂ d.tree d.valid.held
                (λ x k. freed-Same s₁ p x (λ z. omega (arith, k, gone, ap (λ y. count y d.tree) z)))
                (freed-Same s₁ p nil inner).0 refl;
          colours = d.valid.colours;
          sorted = d.valid.sorted;
        } in
        Kept-Changes (delete_number v) _ val' s₂ d.tree valid
          (erased-Changes dummy val s t here.apart here.taken v p s₂ d.tree i e
            (ap (λ f. update f p false) d.allocated) d.order)
          (λ w. refl)

    delete-Kept :
        (calloc : Option Ptr)
        → size t < fuel
        → Returns
            (Kept (delete_number v))
            (command nil dummy left_field right_field fuel garbage (delete_number v) calloc val s)
    unfolding command
    delete-Kept calloc enough =
        let held = here.valid.held in
        let (p, run, finds) =
          find-Found nil (num_cmp val') dummy s (num_cmp-IsOrder val') fuel t held.at
            found_valid.sorted enough in
        elim finds [
          | inr (e, misses) ↦
              let ch = missing-Changes dummy val s t here.apart here.taken v misses in
              rw (run, ==_true e)
                (returns (Kept-Changes (delete_number v) _ val' s t found_valid ch (λ w. refl)))
          | inl (i, e) ↦
              let there = IsRep-live nil s nil p t held.at.down i in
              rw (run, live-not_null s.allocated p there)
                (bind (delete-Deleted (num_cmp val') nil p s t fuel found_valid i enough) λ _ s₁ d.
                  let there' = subst (λ f. live f p ≡ true) (sym d.allocated) there in
                  rw (free-ok s₁ p there') (returns (delete_node-Kept p s₁ i e d)))
        ]

  print-Kept :
      (o : Option Ptr)
      → size t < fuel
      → Returns (Kept print) (command nil dummy left_field right_field fuel garbage print o val s)
  unfolding command
  print-Kept o enough =
      let held = here.valid.held in
      rw (print_dot-dot val left_field right_field nil fuel s t held.sentinel held.at enough) (
        returns (record {
          values = val;
          tree = t;
          result = refl;
          session = record {
            valid = record {
              held =
                  Held-Same s (printing s _) t held (λ x i. printed-Same s _ x)
                    (printed-Same s _ nil).0 refl;
              colours = here.valid.colours;
              sorted = here.valid.sorted;
            };
            apart = here.apart;
            taken = here.taken;
          };
          small = omega arith;
          owned = λ base own. own;
          bag = λ w. refl;
        }))

  -- a command with any answer of `calloc`: without memory a number is not put in
  pub command-or-none :
      (c : Command) (o : Option Ptr)
      → ((p : Ptr) → o ≡ some p → IsFresh s p)
      → size t < fuel
      → Returns
          (λ r s'. Kept c r s' ⊎ ((r ≡ none) × (o ≡ none) × (s' ≡ s)))
          (command nil dummy left_field right_field fuel garbage c o val s)
  unfolding command
  command-or-none (insert_number v) none fresh enough = returns (inr (refl, refl, refl))
  command-or-none (insert_number v) (some p) fresh enough =
      mono (insert-Kept v p (fresh p refl) enough) λ _ _ k. inl k
  command-or-none (delete_number v) o fresh enough = mono (delete-Kept v o enough) λ _ _ k. inl k
  command-or-none print o fresh enough = mono (print-Kept o enough) λ _ _ k. inl k

  -- A command, where `calloc` answers with a fresh node and with fuel for the nodes, returns without a fault, and leaves
  -- a sorted red-black tree of at most one node more; a number that is put in is held once more, and one that is taken
  -- out once less if it was there.
  pub command-Kept :
      (c : Command) (p : Ptr)
      → IsFresh s p
      → size t < fuel
      → Returns (Kept c) (command nil dummy left_field right_field fuel garbage c (some p) val s)
  unfolding command
  command-Kept (insert_number v) p fresh enough = insert-Kept v p fresh enough
  command-Kept (delete_number v) p fresh enough = delete-Kept v (some p) enough
  command-Kept print p fresh enough = print-Kept (some p) enough
