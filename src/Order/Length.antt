-- ===== src/Order/Length.antt =====
-- The lengths of the reference operations.
use dsa.Order.{insort, erase}
use dsa.Prelude.Int.{ℤ}
use dsa.Prelude.{◌+◌, ◌≤◌, ◌≡◌, refl, List, [], ◌∷◌, length, arith}
use dsa.Store.{Ptr}

pub length-insort :
    (cmp : Ptr → Ptr → ℤ) (x : Ptr) (xs : List Ptr) → length (insort cmp x xs) ≡ length xs + 1
length-insort cmp x [] = refl
length-insort cmp x (y ∷ ys) = ground (arith, length-insort cmp x ys)

pub length-erase : (a : Ptr) (xs : List Ptr) → length (erase a xs) ≤ length xs
length-erase a [] = omega arith
length-erase a (x ∷ xs) = ground (arith, length-erase a xs)
