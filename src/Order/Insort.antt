-- ===== src/Order/Insort.antt =====
-- Ordered insertion into a sequence.
use dsa.Prelude.{◌≡◌, refl, ap, true, false, inl, inr, Bool-cases, List, [], ◌∷◌, ◌++◌}
use dsa.Prelude.Int.{ℤ}
use dsa.Store.{Ptr}
use dsa.Order.{IsOrder, less, NoneAbove, NoneBelow, IsSorted, insort}
use dsa.Order.Sorted.{NoneBelow-trans}

module _ (cmp : Ptr → Ptr → ℤ) where
  -- the place is in the front part
  pub insort-front :
      (x a : Ptr) (xs ys : List Ptr)
      → less cmp x a ≡ true
      → insort cmp x (xs ++ (a ∷ ys)) ≡ insort cmp x xs ++ (a ∷ ys)
  insort-front x a [] ys h = rw h
  insort-front x a (y ∷ xs) ys h = elim (Bool-cases (less cmp x y)) [
    | inl e ↦ rw e
    | inr e ↦ rw e (ap (λ t. y ∷ t) (insort-front x a xs ys h))
  ]

  -- the place is behind the front part
  pub insort-back :
      (x : Ptr) (xs ys : List Ptr)
      → NoneAbove cmp x xs
      → insort cmp x (xs ++ ys) ≡ xs ++ insort cmp x ys
  insort-back x [] ys h = refl
  insort-back x (y ∷ xs) ys h = rw (h.0) (ap (λ t. y ∷ t) (insort-back x xs ys h.1))

  NoneBelow-insort :
      (x z : Ptr) (ys : List Ptr)
      → less cmp z x ≡ false
      → NoneBelow cmp x ys
      → NoneBelow cmp x (insort cmp z ys)
  NoneBelow-insort x z [] h k = (h, tt)
  NoneBelow-insort x z (y ∷ ys) h k = elim (Bool-cases (less cmp z y)) [
    | inl e ↦ rw e (h, k)
    | inr e ↦ rw e (k.0, NoneBelow-insort x z ys h k.1)
  ]

  -- ordered insertion keeps a sequence sorted
  pub insort-IsSorted :
      (o : IsOrder cmp) (x : Ptr) (ys : List Ptr) → IsSorted cmp ys → IsSorted cmp (insort cmp x ys)
  insort-IsSorted o x [] h = (tt, tt)
  insort-IsSorted o x (y ∷ ys) h = elim (Bool-cases (less cmp x y)) [
    | inl e ↦ rw e ((o.less_asymm x y e, NoneBelow-trans cmp o x y ys (o.less_asymm x y e) h.0), h)
    | inr e ↦ rw e (NoneBelow-insort y x ys e h.0, insort-IsSorted o x ys h.1)
  ]
