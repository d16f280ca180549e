-- ===== src/Tree/Levels.antt =====
-- The height of a node in a tree, and the sum of all of them.
use dsa.Order.{insort}
use dsa.Prelude.Int.{ℤ}
use dsa.Prelude.{
  ℕ, suc, ◌+◌, ◌*◌, ◌^◌, ◌<◌, ◌≤◌, ◌≡◌, refl, ◌==◌, true, false, to_nat, to_nat_self, if◌then◌else◌,
  ltb, List, [], ◌∷◌, ◌++◌, length, arith,
}
use native.Mathlib.Nat.{mul-le-mul_left}
use dsa.Store.{Ptr}
use dsa.Tree.Shape.{length-inorder}
use dsa.Tree.Locate.{occurs, occurs-inorder}
use dsa.Tree.{Tree, leaf, node, Hole, top, on_left, on_right, inorder, size, count}

pub not_pos : (n : ℕ) → ltb 0 n ≡ false → n ≡ 0
not_pos n e = ground (arith, e)

pub is_pos : (n : ℕ) → ltb 0 n ≡ true → 0 < n
is_pos n e = ground (arith, e)

mul_nonneg : (m n : ℕ) → 0 ≤ m * n
mul_nonneg m n = omega arith

square_mono : (m n : ℕ) → m ≤ n → m * (m + 1) ≤ n * (n + 1)
square_mono m n h = omega (arith, mul-le-mul_left m h, mul-le-mul_left n h)

-- the sum over a list
abbrev pub total : (Ptr → ℕ) → List Ptr → ℕ
total f [] = 0
total f (x ∷ xs) = f x + total f xs

pub total-append : (f : Ptr → ℕ) (xs ys : List Ptr) → total f (xs ++ ys) ≡ total f xs + total f ys
total-append f [] ys = omega arith
total-append f (x ∷ xs) ys = omega (arith, total-append f xs ys)

pub total-insort :
    (f : Ptr → ℕ) (cmp : Ptr → Ptr → ℤ) (x : Ptr) (xs : List Ptr)
    → total f (insort cmp x xs) ≡ f x + total f xs
total-insort f cmp x [] = omega arith
total-insort f cmp x (y ∷ ys) = ground (arith, total-insort f cmp x ys)

pub total-occurs : (x : Ptr) (xs : List Ptr) → total (λ y. to_nat (x == y)) xs ≡ occurs x xs
total-occurs x [] = refl
total-occurs x (y ∷ ys) = omega (arith, total-occurs x ys)

-- two functions that agree on the members
pub total-congr :
    (f g : Ptr → ℕ) (ys : List Ptr)
    → ((x : Ptr) → 0 < occurs x ys → f x ≡ g x)
    → total f ys ≡ total g ys
total-congr f g [] e = refl
total-congr f g (y ∷ ys) e =
    omega (
      arith,
      e y (omega (arith, to_nat_self y)),
      total-congr f g ys (λ x i. e x (omega (arith, i))),
    )

total-suc : (f : Ptr → ℕ) (ys : List Ptr) → total (λ x. suc (f x)) ys ≡ total f ys + length ys
total-suc f [] = refl
total-suc f (y ∷ ys) = omega (arith, total-suc f ys)

module _ {T : Type 0} where
  -- the number of nodes on the way to a hole
  abbrev pub depth : Hole T → ℕ
  depth top = 0
  depth (on_left a c r up) = 1 + depth up
  depth (on_right l a c up) = 1 + depth up

  -- the number of nodes from the root to `x`
  abbrev pub level : Ptr → Tree T → ℕ
  level x leaf = 0
  level x (node l a c r) =
      if x == a then 1 else if ltb 0 (count x l) then suc (level x l) else suc (level x r)

  -- the sum over the nodes of the numbers of nodes on their ways up
  abbrev pub path_length : Tree T → ℕ
  path_length leaf = 0
  path_length (node l a c r) = 1 + (path_length l + size l) + (path_length r + size r)

  module _ (l : Tree T) (a : Ptr) (c : T) (r : Tree T)
      (once : (x : Ptr) → count x (node l a c r) ≤ 1) where
    level-top : level a (node l a c r) ≡ 1
    level-top = ground arith

    level-left : (x : Ptr) → 0 < count x l → level x (node l a c r) ≡ suc (level x l)
    level-left x i = let o = once x in ground arith

    level-right : (x : Ptr) → 0 < count x r → level x (node l a c r) ≡ suc (level x r)
    level-right x i = let o = once x in ground arith

  pub total-level :
      (t : Tree T)
      → ((x : Ptr) → count x t ≤ 1)
      → total (λ x. level x t) (inorder t) ≡ path_length t
  total-level leaf once = refl
  total-level (node l a c r) once =
      let lev = λ (x : Ptr). level x (node l a c r) in
      let on_l =
        total-congr lev (λ x. suc (level x l)) (inorder l)
          (λ x i. level-left l a c r once x (omega (arith, i, occurs-inorder x l))) in
      let on_r =
        total-congr lev (λ x. suc (level x r)) (inorder r)
          (λ x i. level-right l a c r once x (omega (arith, i, occurs-inorder x r))) in
      omega (
        arith,
        total-append lev (inorder l) (a ∷ inorder r),
        on_l,
        on_r,
        level-top l a c r once,
        total-suc (λ x. level x l) (inorder l),
        total-suc (λ x. level x r) (inorder r),
        length-inorder l,
        length-inorder r,
        total-level l (λ x. omega (arith, once x)),
        total-level r (λ x. omega (arith, once x)),
      )

  -- the sum is largest where the nodes are all on one way
  pub path_length-bound : (t : Tree T) → 2 * path_length t ≤ size t * (size t + 1)
  path_length-bound leaf = omega arith
  path_length-bound (node l a c r) =
      omega (arith, path_length-bound l, path_length-bound r, mul_nonneg (size l) (size r))

  -- of less than 2^16 nodes `int` can hold it
  pub short_paths : (t : Tree T) → size t < 2 ^ 16 → path_length t < 2 ^ 31
  short_paths t few =
      omega (arith, path_length-bound t, square_mono (size t) 65535 (omega (arith, few)))
