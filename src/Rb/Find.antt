-- ===== src/Rb/Find.antt =====
-- `rb_find`: a search in a sorted tree that ends at the sentinel.
use dsa.Order.{IsOrder, less, equal, IsSorted}
use dsa.Prelude.Int.{ℤ}
use dsa.Prelude.{ℕ, zero, suc, ◌<◌, ◌≡◌, ◌==◌, ◌∙◌, inl, inr, false, Bool-cases, ap, ==_refl, arith}
use dsa.Rb.Defs.{Red, find_loop, find}
use dsa.Store.Access.{get_left-ok, get_right-ok}
use dsa.Store.{Ptr, null, Store, ok}
use dsa.Tree.Rep.{IsRep, IsTree}
use dsa.Tree.Search.{find_tree, Finds, find_tree-Finds}
use dsa.Tree.{Tree, leaf, node, ptr, inorder, size, count}

module _ (nil : Ptr) (cmp : Ptr → Ptr → ℤ) (x : Ptr) (s : Store Red) where
  find_loop-find_tree :
      (k : ℕ) (t : Tree Red) (p : Ptr)
      → size t < k
      → count nil t ≡ 0
      → IsRep nil s p t
      → find_loop nil cmp k x (ptr nil t) s ≡ ok (find_tree cmp x null t) s
  unfolding find_loop
  find_loop-find_tree zero t p fuel apart d = absurd (omega arith)
  find_loop-find_tree (suc k) leaf p fuel apart d = rw (==_refl nil)
  find_loop-find_tree (suc k) (node l a c r) p fuel apart (n, dl, dr) =
      let inner : (a == nil) ≡ false = ground arith in
      elim (Bool-cases (equal cmp x a)) [
        | inl e ↦ rw (inner, e)
        | inr ne ↦ elim (Bool-cases (less cmp x a)) [
          | inl e ↦
              rw (inner, ne, e, get_left-ok s a n.there, n.left)
                (find_loop-find_tree k l a (omega arith) (omega arith) dl)
          | inr e ↦
              rw (inner, ne, e, get_right-ok s a n.there, n.right)
                (find_loop-find_tree k r a (omega arith) (omega arith) dr)
        ]
      ]

  -- `rb_find` on a sorted tree changes nothing, and returns a node of the tree that compares equal,
  -- or NULL, and not the sentinel, exactly when no node of the tree does
  pub find-Found :
      (o : IsOrder cmp) (fuel : ℕ) (t : Tree Red)
      → IsTree nil s t
      → IsSorted cmp (inorder t)
      → size t < fuel
      → (p : Ptr) × (find nil cmp fuel x s ≡ ok p s) × Finds cmp x null t p
  unfolding find
  find-Found o fuel t at sorted enough = (
    find_tree cmp x null t,
    ap (λ n. find_loop nil cmp fuel x n s) at.up
        ∙ find_loop-find_tree fuel t nil enough (omega (arith, at.absent)) at.down,
    find_tree-Finds cmp x o null t sorted,
  )
