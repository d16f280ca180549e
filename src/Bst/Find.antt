-- ===== src/Bst/Find.antt =====
-- `bst_find`: a search in a sorted tree.
use dsa.Order.{IsOrder, less, equal, IsSorted}
use dsa.Prelude.Int.{ℤ}
use dsa.Prelude.{ℕ, zero, suc, ◌<◌, ◌≡◌, refl, ◌∙◌, inl, inr, Bool-cases, ap, arith}
use dsa.Store.Access.{live-not_null, get_left-ok, get_right-ok}
use dsa.Store.{Ptr, null, Store, ok}
use dsa.Tree.Rep.{IsRep, IsTree}
use dsa.Tree.Search.{find_tree, Finds, find_tree-Finds}
use dsa.Tree.{Tree, leaf, node, ptr, inorder, size}
use dsa.Bst.{Plain, find_loop, find}

module _ (cmp : Ptr → Ptr → ℤ) (x : Ptr) (s : Store Plain) where
  find_loop-find_tree :
      (k : ℕ) (t : Tree Plain) (p : Ptr)
      → size t < k
      → IsRep null s p t
      → find_loop cmp k x (ptr null t) s ≡ ok (find_tree cmp x null t) s
  unfolding find_loop
  find_loop-find_tree zero t p fuel d = absurd (omega arith)
  find_loop-find_tree (suc k) leaf p fuel d = refl
  find_loop-find_tree (suc k) (node l a c r) p fuel (n, dl, dr) =
      let there = live-not_null s.allocated a n.there in
      elim (Bool-cases (equal cmp x a)) [
        | inl e ↦ rw (there, e)
        | inr ne ↦ elim (Bool-cases (less cmp x a)) [
          | inl e ↦
              rw (there, ne, e, get_left-ok s a n.there, n.left)
                (find_loop-find_tree k l a (omega arith) dl)
          | inr e ↦
              rw (there, ne, e, get_right-ok s a n.there, n.right)
                (find_loop-find_tree k r a (omega arith) dr)
        ]
      ]

  -- `bst_find` changes nothing, and returns a node of the sorted tree that compares equal, or NULL
  -- exactly when no node of the tree does
  pub find-Finds :
      (o : IsOrder cmp) (fuel : ℕ) (t : Tree Plain)
      → IsTree null s t
      → IsSorted cmp (inorder t)
      → size t < fuel
      → (p : Ptr) × (find cmp fuel x s ≡ ok p s) × Finds cmp x null t p
  unfolding find
  find-Finds o fuel t at sorted enough = (
    find_tree cmp x null t,
    ap (λ n. find_loop cmp fuel x n s) at.up ∙ find_loop-find_tree fuel t null enough at.down,
    find_tree-Finds cmp x o null t sorted,
  )
