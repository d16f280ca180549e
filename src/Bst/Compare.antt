-- ===== src/Bst/Compare.antt =====
-- `numcmp` of bst.c, and of rbtree.c with the same statements, against the order of the integers.
use dsa.Bst.Height.{num_cmp-IsOrder}
use dsa.Bst.{num_cmp}
use dsa.Order.{IsOrder}
use dsa.Prelude.Int.{ℤ, pos, negsuc, ltb_ℤ, eqb_ℤ}
use dsa.Prelude.{◌<◌, ◌≡◌, ap, inl, inr, Bool-cases, true, false, arith}
use dsa.Store.{Ptr}

-- the order of the integers, by their signs
abbrev pub IsLess : ℤ → ℤ → Type 0
IsLess (pos m) (pos n) = m < n
IsLess (pos m) (negsuc n) = ⊥
IsLess (negsuc m) (pos n) = Unit {0}
IsLess (negsuc m) (negsuc n) = n < m

-- the result for two numbers: -1, 0 or 1
pub data Compared (x y : ℤ) : ℤ → Type 0 where
  smaller : IsLess x y → Compared x y (negsuc 0)
  equal : x ≡ y → Compared x y (pos 0)
  greater : IsLess y x → Compared x y (pos 1)

ltb_ℤ-IsLess : (x y : ℤ) → ltb_ℤ x y ≡ true → IsLess x y
ltb_ℤ-IsLess (pos m) (pos n) e = ground (arith, e)
ltb_ℤ-IsLess (pos m) (negsuc n) e = absurd (ground (arith, e))
ltb_ℤ-IsLess (negsuc m) (pos n) e = tt
ltb_ℤ-IsLess (negsuc m) (negsuc n) e = ground (arith, e)

eqb_ℤ-eq : (x y : ℤ) → eqb_ℤ x y ≡ true → x ≡ y
eqb_ℤ-eq (pos m) (pos n) e = ap pos (ground (arith, e))
eqb_ℤ-eq (pos m) (negsuc n) e = absurd (ground (arith, e))
eqb_ℤ-eq (negsuc m) (pos n) e = absurd (ground (arith, e))
eqb_ℤ-eq (negsuc m) (negsuc n) e = ap negsuc (ground (arith, e))

else-IsLess : (x y : ℤ) → ltb_ℤ x y ≡ false → eqb_ℤ x y ≡ false → IsLess y x
else-IsLess (pos m) (pos n) e f = ground (arith, e, f)
else-IsLess (pos m) (negsuc n) e f = tt
else-IsLess (negsuc m) (pos n) e f = absurd (ground (arith, e))
else-IsLess (negsuc m) (negsuc n) e f = ground (arith, e, f)

compare_lem : (val : Ptr → ℤ) (a b : Ptr) → Compared (val a) (val b) (num_cmp val a b)
unfolding num_cmp
compare_lem val a b = elim (Bool-cases (ltb_ℤ (val a) (val b))) [
  | inl e ↦ rw e (smaller (ltb_ℤ-IsLess (val a) (val b) e))
  | inr e ↦ elim (Bool-cases (eqb_ℤ (val a) (val b))) [
    | inl f ↦ rw (e, f) (equal (eqb_ℤ-eq (val a) (val b) f))
    | inr f ↦ rw (e, f) (greater (else-IsLess (val a) (val b) e f))
  ]
]

-- `numcmp` of bst.c returns -1, 0 or 1 where the number of the first node is less than, equal to or greater than that of the second,
-- and so it is a total preorder on the nodes, as the tree functions need it.
pub num_cmp-Compared :
    (val : Ptr → ℤ)
    → IsOrder (num_cmp val) × ((a b : Ptr) → Compared (val a) (val b) (num_cmp val a b))
num_cmp-Compared val = (num_cmp-IsOrder val, compare_lem val)
