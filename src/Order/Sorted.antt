-- ===== src/Order/Sorted.antt =====
-- Parts of a sorted sequence.
use dsa.Prelude.{◌≡◌, inl, inr, Bool, Bool-cases, true, false, List, [], ◌∷◌, ◌++◌, arith}
use dsa.Prelude.Int.{ℤ}
use dsa.Store.{Ptr}
use dsa.Order.{IsOrder, less, equal, NoneAbove, NoneBelow, IsSorted, Misses, erase}

module _ (cmp : Ptr → Ptr → ℤ) where
  pub NoneBelow-append :
      (x : Ptr) (xs ys : List Ptr)
      → NoneBelow cmp x (xs ++ ys)
      → NoneBelow cmp x xs × NoneBelow cmp x ys
  NoneBelow-append x [] ys h = (tt, h)
  NoneBelow-append x (y ∷ xs) ys h = let r = NoneBelow-append x xs ys h.1 in ((h.0, r.0), r.1)

  pub NoneBelow-join :
      (x : Ptr) (xs ys : List Ptr)
      → NoneBelow cmp x xs
      → NoneBelow cmp x ys
      → NoneBelow cmp x (xs ++ ys)
  NoneBelow-join x [] ys h k = k
  NoneBelow-join x (y ∷ xs) ys h k = (h.0, NoneBelow-join x xs ys h.1 k)

  -- the parts before and after a node
  pub record Split (xs : List Ptr) (a : Ptr) (ys : List Ptr) : Type 0 where
    pub low : IsSorted cmp xs
    pub high : IsSorted cmp ys
    pub upper : NoneAbove cmp a xs
    pub lower : NoneBelow cmp a ys

  pub IsSorted-append :
      (xs : List Ptr) (a : Ptr) (ys : List Ptr) → IsSorted cmp (xs ++ (a ∷ ys)) → Split xs a ys
  IsSorted-append [] a ys h = record { low = tt; high = h.1; upper = tt; lower = h.0 }
  IsSorted-append (x ∷ xs) a ys h =
      let r = IsSorted-append xs a ys h.1 in
      let b = NoneBelow-append x xs (a ∷ ys) h.0 in
      record { low = (b.0, r.low); high = r.high; upper = (b.1.0, r.upper); lower = r.lower }

  -- transitivity, over a list
  pub NoneAbove-trans :
      (o : IsOrder cmp) (x a : Ptr) (ys : List Ptr)
      → less cmp x a ≡ false
      → NoneAbove cmp a ys
      → NoneAbove cmp x ys
  NoneAbove-trans o x a [] h k = tt
  NoneAbove-trans o x a (y ∷ ys) h k =
      (o.not_less_trans x a y h k.0, NoneAbove-trans o x a ys h k.1)

  pub NoneBelow-trans :
      (o : IsOrder cmp) (x a : Ptr) (ys : List Ptr)
      → less cmp a x ≡ false
      → NoneBelow cmp a ys
      → NoneBelow cmp x ys
  NoneBelow-trans o x a [] h k = tt
  NoneBelow-trans o x a (y ∷ ys) h k =
      (o.not_less_trans y a x k.0 h, NoneBelow-trans o x a ys h k.1)

  NoneBelow-erase : (x z : Ptr) (ys : List Ptr) → NoneBelow cmp x ys → NoneBelow cmp x (erase z ys)
  NoneBelow-erase x z [] h = tt
  NoneBelow-erase x z (y ∷ ys) h = ground (arith, NoneBelow-erase x z ys h.1)

  -- what is left of a sorted sequence is sorted
  pub erase-IsSorted : (z : Ptr) (ys : List Ptr) → IsSorted cmp ys → IsSorted cmp (erase z ys)
  erase-IsSorted z [] h = tt
  erase-IsSorted z (y ∷ ys) h = ground (arith, NoneBelow-erase y z ys h.0, erase-IsSorted z ys h.1)

  equal-less : (x y : Ptr) → equal cmp x y ≡ true → less cmp x y ≡ false
  equal-less x y e = ground arith

  equal-eq_false : {b c : Bool} → (b ≡ true → c ≡ false) → c ≡ true → b ≡ false
  equal-eq_false {b} f h = elim (Bool-cases b) [ inl e ↦ cc (f e, h) | inr e ↦ e ]

  -- what lies on the wrong side of a node does not compare equal
  pub Misses-above :
      (o : IsOrder cmp) (x a : Ptr) (ys : List Ptr)
      → less cmp x a ≡ true
      → NoneBelow cmp a ys
      → Misses cmp x ys
  Misses-above o x a [] h k = tt
  Misses-above o x a (y ∷ ys) h k = (
    equal-eq_false (λ e. o.not_less_trans x y a (equal-less x y e) k.0) h,
    Misses-above o x a ys h k.1,
  )

  pub Misses-below :
      (o : IsOrder cmp) (x a : Ptr) (ys : List Ptr)
      → less cmp a x ≡ true
      → NoneAbove cmp a ys
      → Misses cmp x ys
  Misses-below o x a [] h k = tt
  Misses-below o x a (y ∷ ys) h k = (
    equal-eq_false (λ e. o.not_less_trans a y x k.0 (o.equal_not_less x y e)) h,
    Misses-below o x a ys h k.1,
  )

  pub Misses-join :
      (x : Ptr) (xs ys : List Ptr) → Misses cmp x xs → Misses cmp x ys → Misses cmp x (xs ++ ys)
  Misses-join x [] ys h k = k
  Misses-join x (y ∷ xs) ys h k = (h.0, Misses-join x xs ys h.1 k)
