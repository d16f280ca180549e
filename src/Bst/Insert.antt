-- ===== src/Bst/Insert.antt =====
-- `bst_insert`: the walk down, the link, and what they do to the nodes in order.
use dsa.Order.Insort.{insort-IsSorted}
use dsa.Order.{IsOrder, less, IsSorted, insort}
use dsa.Prelude.Int.{ℤ, pos, ltb_ℤ}
use dsa.Prelude.{
  ℕ, zero, suc, ◌<◌, ◌≡◌, refl, ◌∙◌, inl, inr, true, false, Bool-cases, to_nat_eq, to_nat_ne, subst,
  sym, ap, update, arith,
}
use dsa.Store.Returns.{Returns, of_eq, mono}
use dsa.Store.{Ptr, null, Store, ok, live}
use dsa.Tree.Distinct.{once-new}
use dsa.Store.Access.{
  live-ne, live-not_null, get_left-ok, get_right-ok, set_parent-ok, set_left-ok, set_right-ok,
}
use dsa.Tree.Graft.{graft, graft-Same, IsAt-graft}
use dsa.Tree.Rep.{IsNode, IsAt, IsTree, Becomes}
use dsa.Tree.Search.{
  descend, insert_tree, plug-descend, count_hole-descend, count-insert_tree, inorder-insert_tree,
  IsAt-descend,
}
use dsa.Tree.Walk.{go_left, go_right, IsTree-plug}
use dsa.Tree.{Tree, leaf, node, Hole, top, on_left, on_right, ptr, above, inorder, size, count}
use dsa.Bst.{Plain, insert_loop, link, insert}

-- the last comparison was on the side of the hole
abbrev Points : ℤ → Hole Plain → Type 0
Points ret top = Unit {0}
Points ret (on_left a c r up) = ltb_ℤ ret (pos 0) ≡ true
Points ret (on_right l a c up) = ltb_ℤ ret (pos 0) ≡ false

module _ (cmp : Ptr → Ptr → ℤ) (x : Ptr) (s : Store Plain) where
  insert_loop-left :
      (k : ℕ) (a p n : Ptr) (ret : ℤ)
      → live s.allocated a ≡ true
      → s.left a ≡ n
      → less cmp x a ≡ true
      → insert_loop cmp (suc k) x a p ret s ≡ insert_loop cmp k x n a (cmp x a) s
  unfolding insert_loop
  insert_loop-left k a p n ret there e lt =
      rw (live-not_null s.allocated a there, lt, get_left-ok s a there, e)

  insert_loop-right :
      (k : ℕ) (a p n : Ptr) (ret : ℤ)
      → live s.allocated a ≡ true
      → s.right a ≡ n
      → less cmp x a ≡ false
      → insert_loop cmp (suc k) x a p ret s ≡ insert_loop cmp k x n a (cmp x a) s
  unfolding insert_loop
  insert_loop-right k a p n ret there e ge =
      rw (live-not_null s.allocated a there, ge, get_right-ok s a there, e)

  abbrev Arrives : ℕ → Ptr → Ptr → ℤ → Hole Plain → Type 0
  Arrives k n p ret h =
      (ret' : ℤ) × (insert_loop cmp k x n p ret s ≡ ok (above null h, ret') s) × Points ret' h

  insert_loop-descend :
      (k : ℕ) (h : Hole Plain) (t : Tree Plain) (ret : ℤ)
      → size t < k
      → IsAt null s h t
      → Points ret h
      → Arrives k (ptr null t) (above null h) ret (descend cmp x h t)
  insert_loop-descend zero h t ret fuel at p = absurd (omega arith)
  insert_loop-descend (suc k) h leaf ret fuel at p = (ret, unfold insert_loop in refl, p)
  insert_loop-descend (suc k) h (node l a c r) ret fuel at p =
      let n = at.down.0 in
      let goes = Arrives (suc k) a (above null h) ret in
      elim (Bool-cases (less cmp x a)) [
        | inl e ↦
            let (ret', run, q) =
              insert_loop-descend k (on_left a c r h) l (cmp x a) (omega arith)
                (go_left null h l a c r at) e in
            subst goes (sym (rw e))
              (ret', insert_loop-left k a (above null h) _ ret n.there n.left e ∙ run, q)
        | inr e ↦
            let (ret', run, q) =
              insert_loop-descend k (on_right l a c h) r (cmp x a) (omega arith)
                (go_right null h l a c r at) e in
            subst goes (sym (rw e))
              (ret', insert_loop-right k a (above null h) _ ret n.there n.right e ∙ run, q)
      ]

-- the new node, with nothing below it
abbrev pub single : Ptr → Tree Plain
single x = node leaf x tt leaf

module _ (x : Ptr) (s : Store Plain) (there : live s.allocated x ≡ true) where
  link_run :
      (h : Hole Plain) (ret : ℤ)
      → IsAt null s h leaf
      → Points ret h
      → link x (above null h) ret s ≡ ok tt (graft null s h (single x))
  unfolding link
  link_run top ret at p = rw (set_parent-ok s x there null)
  link_run (on_left a c r up) ret at p =
      let b = at.up.0.there in
      rw (set_parent-ok s x there a, live-not_null s.allocated a b, p)
        (set_left-ok (record s { parent = update s.parent x a }) a b x)
  link_run (on_right l a c up) ret at p =
      let b = at.up.0.there in
      rw (set_parent-ok s x there a, live-not_null s.allocated a b, p)
        (set_right-ok (record s { parent = update s.parent x a }) a b x)

-- a node that may be put into the tree: it is there, it is not in the tree, and its children are empty
pub record IsNew (s : Store Plain) (x : Ptr) (t : Tree Plain) : Type 0 where
  pub there : live s.allocated x ≡ true
  pub no_left : s.left x ≡ null
  pub no_right : s.right x ≡ null
  pub apart : count x t ≡ 0

module _ (cmp : Ptr → Ptr → ℤ) (x : Ptr) (s : Store Plain) (t : Tree Plain) where
  abbrev place : Hole Plain
  place = descend cmp x top t

  IsTree-link :
      IsTree null s t
      → IsNew s x t
      → IsTree null (graft null s place (single x)) (insert_tree cmp x tt t)
  IsTree-link at new =
      let free = IsAt-descend cmp x null top t at in
      let e = λ (y : Ptr). count_hole-descend cmp x y top t in
      let n : IsNode s x (s.parent x) null null tt = record {
        there = new.there;
        parent = refl;
        left = new.no_left;
        right = new.no_right;
        rest = refl;
      } in
      let grown =
        IsAt-graft null s place (single x) null (s.parent x) free.up (n, tt, tt)
          (λ y. omega (arith, e y, once-new x y t new.apart (omega (arith, at.once y))))
          (omega
            (arith, e null, at.absent, to_nat_ne (λ z. live-ne s.allocated x new.there (sym z)))) in
      subst (IsTree null _) (plug-descend cmp x tt top t) (IsTree-plug null place (single x) grown)

  insert-Becomes :
      (fuel : ℕ) (garbage : ℤ)
      → IsTree null s t
      → IsNew s x t
      → size t < fuel
      → Returns (λ _. Becomes null s t (insert_tree cmp x tt t)) (insert cmp fuel garbage x s)
  unfolding insert
  insert-Becomes fuel garbage at new enough =
      let (ret, run, p) = insert_loop-descend cmp x s fuel top t garbage enough at tt in
      let free = IsAt-descend cmp x null top t at in
      let e = λ (y : Ptr). count_hole-descend cmp x y top t in
      let walk = ap (λ n. insert_loop cmp fuel x n null garbage s) at.up ∙ run in
      rw walk (
        of_eq tt (graft null s place (single x)) (link_run x s new.there place ret free p) (record {
          tree = IsTree-link at new;
          allocated = refl;
          same = λ y o.
              let k = count-insert_tree cmp x y tt t in
              graft-Same null s place (single x) y (omega (arith, o, k, e y))
                (λ z. omega (arith, o, k, to_nat_eq z));
        }))

  -- `bst_insert` on a sorted tree returns without a fault, and puts the node into the order behind
  -- every node that is not greater; all else stays in its order
  pub insert-insort :
      (o : IsOrder cmp) (fuel : ℕ) (garbage : ℤ)
      → IsTree null s t
      → IsSorted cmp (inorder t)
      → IsNew s x t
      → size t < fuel
      → Returns
          (λ _ s'.
            (t' : Tree Plain) × Becomes null s t t' s'
            × (inorder t' ≡ insort cmp x (inorder t))
            × IsSorted cmp (inorder t'))
          (insert cmp fuel garbage x s)
  insert-insort o fuel garbage at sorted new enough =
      let e = inorder-insert_tree cmp x o tt t sorted in
      mono (insert-Becomes fuel garbage at new enough) λ _ s' b. (
        insert_tree cmp x tt t,
        b,
        e,
        subst (IsSorted cmp) (sym e) (insort-IsSorted cmp o x (inorder t) sorted),
      )
