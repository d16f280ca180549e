-- ===== src/Numbers/Bag.antt =====
-- The numbers in the nodes, as lists of nodes change and as the number of another node is written.
use dsa.Bst.{num_cmp}
use dsa.Order.{equal, NoneBelow, IsSorted, insort, Misses, erase}
use dsa.Prelude.Int.{ℤ, pos, eqb_ℤ, ltb_ℤ}
use dsa.Prelude.{
  ◌-◌, subst, ==_refl, ◌+◌, ◌<◌, ◌≡◌, ◌≢◌, ◌==◌, refl, sym, ◌∙◌, ap, to_nat, to_nat_eq, true,
  Bool-cases, inl, inr, ==→eq, List, [], ◌∷◌, update, arith,
}
use dsa.Numbers.{Values, holds}
use dsa.Store.{Ptr}
use dsa.Tree.Locate.{occurs}

module _ (val : Values) (w : ℤ) where
  pub holds-insort :
      (cmp : Ptr → Ptr → ℤ) (x : Ptr) (xs : List Ptr)
      → holds val w (insort cmp x xs) ≡ holds val w xs + to_nat (eqb_ℤ (val x) w)
  holds-insort cmp x [] = omega arith
  holds-insort cmp x (y ∷ ys) = ground (arith, holds-insort cmp x ys)

  pub holds-erase :
      (x : Ptr) (xs : List Ptr)
      → 0 < occurs x xs
      → holds val w (erase x xs) + to_nat (eqb_ℤ (val x) w) ≡ holds val w xs
  holds-erase x [] some = absurd (omega arith)
  holds-erase x (y ∷ ys) some = elim (Bool-cases (x == y)) [
    | inl e ↦ rw e (omega (arith, ap (λ z. to_nat (eqb_ℤ (val z) w)) (==→eq e)))
    | inr e ↦ rw e (omega (arith, holds-erase x ys (ground (arith, e))))
  ]

-- a node is equal to another for `numcmp` when it has its number
pub equal-num_cmp : (val : Values) (x y : Ptr) → equal (num_cmp val) x y ≡ eqb_ℤ (val y) (val x)
unfolding num_cmp
equal-num_cmp val x y = ground arith

pub Misses-holds :
    (val : Values) (x : Ptr) (xs : List Ptr) → Misses (num_cmp val) x xs → holds val (val x) xs ≡ 0
Misses-holds val x [] m = refl
Misses-holds val x (y ∷ ys) (m, ms) =
    omega (arith, ap to_nat (sym (equal-num_cmp val x y) ∙ m), Misses-holds val x ys ms)

-- equal numbers are held equally often
pub eqb_ℤ-right : (u v w : ℤ) → eqb_ℤ v w ≡ true → eqb_ℤ u v ≡ eqb_ℤ u w
eqb_ℤ-right u v w e = ground (arith, e)

pub eqb_ℤ-left : (u v w : ℤ) → eqb_ℤ u v ≡ true → eqb_ℤ u w ≡ eqb_ℤ v w
eqb_ℤ-left u v w e = ground (arith, e)

pub holds-eq :
    (val : Values) (v w : ℤ) (xs : List Ptr) → eqb_ℤ v w ≡ true → holds val v xs ≡ holds val w xs
holds-eq val v w [] e = refl
holds-eq val v w (x ∷ xs) e =
    omega (arith, ap to_nat (eqb_ℤ-right (val x) v w e), holds-eq val v w xs e)

num_cmp-eq :
    (val val' : Values) (x y : Ptr)
    → val' x ≡ val x
    → val' y ≡ val y
    → num_cmp val' x y ≡ num_cmp val x y
unfolding num_cmp
num_cmp-eq val val' x y e f = rw (e, f) refl

pub occurs-insort :
    (cmp : Ptr → Ptr → ℤ) (z x : Ptr) (xs : List Ptr)
    → occurs z (insort cmp x xs) ≡ to_nat (z == x) + occurs z xs
occurs-insort cmp z x [] = omega arith
occurs-insort cmp z x (y ∷ ys) = ground (arith, occurs-insort cmp z x ys)

pub occurs-erase :
    (z x : Ptr) (xs : List Ptr)
    → 0 < occurs x xs
    → occurs z (erase x xs) + to_nat (z == x) ≡ occurs z xs
occurs-erase z x [] some = absurd (omega arith)
occurs-erase z x (y ∷ ys) some = elim (Bool-cases (x == y)) [
  | inl e ↦ rw e (omega (arith, ap (λ u. to_nat (z == u)) (==→eq e)))
  | inr e ↦ rw e (omega (arith, occurs-erase z x ys (ground (arith, e))))
]

module _ (val : Values) (z : Ptr) (v : ℤ) where
  pub update-ne : (x : Ptr) → x ≢ z → update val z v x ≡ val x
  update-ne x ne = ground arith

  -- a node outside the list gets another number
  pub holds-update :
      (w : ℤ) (xs : List Ptr) → occurs z xs ≡ 0 → holds (update val z v) w xs ≡ holds val w xs
  holds-update w [] out = refl
  holds-update w (x ∷ xs) out = omega (
    arith,
    ap (λ u. to_nat (eqb_ℤ u w)) (update-ne x (λ e. omega (arith, out, to_nat_eq (sym e)))),
    holds-update w xs (omega (arith, out)),
  )

  NoneBelow-update :
      (x : Ptr) (ys : List Ptr)
      → x ≢ z
      → occurs z ys ≡ 0
      → NoneBelow (num_cmp val) x ys
      → NoneBelow (num_cmp (update val z v)) x ys
  NoneBelow-update x [] ne out h = tt
  NoneBelow-update x (y ∷ ys) ne out (h, hs) = (
    ap (λ k. ltb_ℤ k (pos 0))
          (num_cmp-eq val (update val z v) y x
            (update-ne y (λ e. omega (arith, out, to_nat_eq (sym e)))) (update-ne x ne))
        ∙ h,
    NoneBelow-update x ys ne (omega (arith, out)) hs,
  )

  pub IsSorted-update :
      (xs : List Ptr)
      → occurs z xs ≡ 0
      → IsSorted (num_cmp val) xs
      → IsSorted (num_cmp (update val z v)) xs
  IsSorted-update [] out h = tt
  IsSorted-update (x ∷ xs) out (h, hs) = (
    NoneBelow-update x xs (λ e. omega (arith, out, to_nat_eq (sym e))) (omega (arith, out)) h,
    IsSorted-update xs (omega (arith, out)) hs,
  )

-- the number of a deletion is written into a node `z` outside the list
module _ (val : Values) (z : Ptr) (v w : ℤ) where
  abbrev val' : Values
  val' = update val z v

  val'-self : val' z ≡ v
  val'-self = rw (==_refl z) refl

  -- no node of the list has it
  pub missing-holds :
      (xs : List Ptr)
      → occurs z xs ≡ 0
      → holds val' (val' z) xs ≡ 0
      → holds val' w xs ≡ holds val w xs - to_nat (eqb_ℤ v w)
  missing-holds xs out none_held = elim (Bool-cases (eqb_ℤ v w)) [
    | inl e ↦ omega (
      arith,
      holds-update val z v w xs out,
      holds-eq val' v w xs e,
      ap (λ u. holds val' u xs) (sym val'-self),
      none_held,
      ap to_nat e,
    )
    | inr e ↦ omega (arith, holds-update val z v w xs out, ap to_nat e)
  ]

  -- one node of the list that has it is gone
  pub erased-holds :
      (p : Ptr) (xs : List Ptr)
      → occurs z xs ≡ 0
      → 0 < occurs p xs
      → eqb_ℤ (val' p) (val' z) ≡ true
      → holds val' w (erase p xs) ≡ holds val w xs - to_nat (eqb_ℤ v w)
  erased-holds p xs out i e =
      let same : eqb_ℤ (val' p) w ≡ eqb_ℤ v w =
        eqb_ℤ-left (val' p) v w (subst (λ u. eqb_ℤ (val' p) u ≡ true) val'-self e) in
      omega (arith, holds-erase val' w p xs i, holds-update val z v w xs out, ap to_nat same)
