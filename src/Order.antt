-- ===== src/Order.antt =====
-- The comparison that the tree functions take as an argument, what they rely on of it, and the
-- sequences that it sorts.
pub mod Sorted
pub mod Insort
pub mod Length
use dsa.Prelude.{◌≡◌, Bool, true, false, if◌then◌else◌, List, [], ◌∷◌, ◌==◌}
use dsa.Prelude.Int.{ℤ, pos, ltb_ℤ, eqb_ℤ}
use dsa.Store.{Ptr}

-- `cmp(a, b) < 0` and `cmp(a, b) == 0`
abbrev pub less : (Ptr → Ptr → ℤ) → Ptr → Ptr → Bool
less cmp a b = ltb_ℤ (cmp a b) (pos 0)

abbrev pub equal : (Ptr → Ptr → ℤ) → Ptr → Ptr → Bool
equal cmp a b = eqb_ℤ (cmp a b) (pos 0)

-- A three-way comparison by a total preorder.
pub record IsOrder (cmp : Ptr → Ptr → ℤ) : Type 0 where
  pub less_asymm : (a b : Ptr) → less cmp a b ≡ true → less cmp b a ≡ false
  pub not_less_trans :
      (a b c : Ptr) → less cmp a b ≡ false → less cmp b c ≡ false → less cmp a c ≡ false
  pub equal_of : (a b : Ptr) → less cmp a b ≡ false → less cmp b a ≡ false → equal cmp a b ≡ true
  pub equal_not_less : (a b : Ptr) → equal cmp a b ≡ true → less cmp b a ≡ false

module _ (cmp : Ptr → Ptr → ℤ) where
  -- `x` is not less than any of the list, or none of the list is less than `x`
  abbrev pub NoneAbove : Ptr → List Ptr → Type 0
  NoneAbove x [] = Unit
  NoneAbove x (y ∷ ys) = (less cmp x y ≡ false) × NoneAbove x ys

  abbrev pub NoneBelow : Ptr → List Ptr → Type 0
  NoneBelow x [] = Unit
  NoneBelow x (y ∷ ys) = (less cmp y x ≡ false) × NoneBelow x ys

  -- no node is less than one before it
  abbrev pub IsSorted : List Ptr → Type 0
  IsSorted [] = Unit
  IsSorted (x ∷ xs) = NoneBelow x xs × IsSorted xs

  -- `x` before the first node that is greater
  abbrev pub insort : Ptr → List Ptr → List Ptr
  insort x [] = x ∷ []
  insort x (y ∷ ys) = if less cmp x y then x ∷ y ∷ ys else y ∷ insort x ys

  -- no node of the list compares equal to `x`
  abbrev pub Misses : Ptr → List Ptr → Type 0
  Misses x [] = Unit
  Misses x (y ∷ ys) = (equal cmp x y ≡ false) × Misses x ys

-- the list without the node `x`
abbrev pub erase : Ptr → List Ptr → List Ptr
erase x [] = []
erase x (y ∷ ys) = if x == y then ys else y ∷ erase x ys
