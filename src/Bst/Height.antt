-- ===== src/Bst/Height.antt =====
-- `bst_height` and `numcmp`.
use dsa.Order.{IsOrder}
use dsa.Prelude.Int.{ℤ}
use dsa.Prelude.{ℕ, zero, suc, ◌+◌, ◌<◌, ◌≡◌, ◌==◌, ◌∙◌, ap, if◌then◌else◌, ltb, arith}
use dsa.Store.Access.{live-not_null, get_left-ok, get_right-ok}
use dsa.Store.{Ptr, null, Store, ok, pure}
use dsa.Tree
use dsa.Tree.Rep.{IsRep, IsTree}
use dsa.Tree.{Tree, leaf, node, ptr, count, size}
use dsa.Bst.{Plain, height_from, height, num_cmp}

add_max :
    (h a b : ℕ)
    → (if ltb (h + 1 + b) (h + 1 + a) then h + 1 + a else h + 1 + b)
      ≡ h + (1 + (if ltb b a then a else b))
add_max h a b = ground arith

module _ (s : Store Plain) where
  height_child :
      (k h : ℕ) (t : Tree Plain) (p : Ptr)
      → height_from k (ptr null t) (h + 1) s ≡ ok (h + 1 + Tree.height t) s
      → IsRep null s p t
      → (if ptr null t == null then pure (h + 1) else height_from k (ptr null t) (h + 1)) s
        ≡ ok (h + 1 + Tree.height t) s
  height_child k h leaf p e d = ap (λ n. ok n s) (omega arith)
  height_child k h (node l a c r) p e (n, _, _) = rw (live-not_null s.allocated a n.there) e

  height_from-height :
      (k : ℕ) (t : Tree Plain) (p : Ptr) (h : ℕ)
      → size t < k
      → IsRep null s p t
      → height_from k (ptr null t) h s ≡ ok (h + Tree.height t) s
  unfolding height_from
  height_from-height zero t p h fuel d = absurd (omega arith)
  height_from-height (suc k) leaf p h fuel d = ap (λ n. ok n s) (omega arith)
  height_from-height (suc k) (node l a c r) p h fuel (n, dl, dr) =
      rw
        (
          live-not_null s.allocated a n.there,
          get_left-ok s a n.there,
          n.left,
          height_child k h l a (height_from-height k l a (h + 1) (omega arith) dl) dl,
          get_right-ok s a n.there,
          n.right,
          height_child k h r a (height_from-height k r a (h + 1) (omega arith) dr) dr,
        )
        (ap (λ m. ok m s) (add_max h (Tree.height l) (Tree.height r)))

  -- `bst_height` is the number of nodes on the longest way from the root
  pub height_lem :
      (fuel : ℕ) (t : Tree Plain)
      → IsTree null s t
      → size t < fuel
      → height fuel s.root s ≡ ok (Tree.height t) s
  unfolding height
  height_lem fuel t at enough =
      ap (λ n. height_from fuel n 0 s) at.up
      ∙ height_from-height fuel t null 0 enough at.down
      ∙ ap (λ n. ok n s) (omega arith)

-- the comparison of the numbers in the nodes is what the tree functions rely on
pub num_cmp-IsOrder : (val : Ptr → ℤ) → IsOrder (num_cmp val)
unfolding num_cmp
num_cmp-IsOrder val = record {
  less_asymm = λ a b h. ground arith;
  not_less_trans = λ a b c h k. ground arith;
  equal_of = λ a b h k. ground arith;
  equal_not_less = λ a b h. ground arith;
}
