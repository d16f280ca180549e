-- ===== src/Rb/Bounds.antt =====
-- The height of a red-black tree.
use dsa.Prelude.{
  ℕ, suc, ◌+◌, ◌*◌, ◌^◌, ◌≤◌, ◌<◌, ◌≡◌, true, false, if◌then◌else◌, ltb, subst, arith,
}
use dsa.Rb.Colours.{red_root, IsRb}
use dsa.Prelude.Int.{ℤ}
use dsa.Rb.Defs.{Red, height}
use dsa.Rb.Sentinel.{height-longest}
use dsa.Rb.State.{IsRbTree}
use dsa.Store.{Ptr, Store, ok}
use dsa.Tree
use dsa.Tree.{Tree, leaf, node, size}

height_max : (a b : ℕ) (m : ℕ) → a ≤ m → b ≤ m → (if ltb b a then a else b) ≤ m
height_max a b m p q = ground arith

-- every way down has at most one red node for each black one, and a red root more
height-le :
    (n : ℕ) (t : Tree Red) → IsRb n t → Tree.height t ≤ 2 * n + (if red_root t then 1 else 0)
height-le n leaf rb = omega (arith, rb)
height-le n (node l a true r) (m, e, calm_l, calm_r, rb_l, rb_r) =
    let left = height-le m l rb_l in
    let right = height-le m r rb_r in
    ground (arith, left, right, height_max (Tree.height l) (Tree.height r) (2 * m))
height-le n (node l a false r) (m, e, calm_l, calm_r, rb_l, rb_r) =
    let left = height-le m l rb_l in
    let right = height-le m r rb_r in
    ground (arith, left, right, height_max (Tree.height l) (Tree.height r) (2 * m + 1))

pow_suc : (n : ℕ) → 2 ^ suc n ≡ 2 * 2 ^ n
pow_suc n = omega arith

pow-le-size : (n : ℕ) (t : Tree Red) → IsRb n t → 2 ^ n ≤ size t + 1
pow-le-size n leaf rb = let e : 0 ≡ n = omega arith in subst (λ k. 2 ^ k ≤ 1) e (omega arith)
pow-le-size n (node l a true r) (m, e, calm_l, calm_r, rb_l, rb_r) =
    let e' : m ≡ n = omega arith in
    subst (λ k. 2 ^ k ≤ size (node l a true r) + 1) e' (omega (arith, pow-le-size m l rb_l))
pow-le-size n (node l a false r) (m, e, calm_l, calm_r, rb_l, rb_r) =
    let e' : suc m ≡ n = omega arith in
    subst (λ k. 2 ^ k ≤ size (node l a false r) + 1) e'
      (omega (arith, pow_suc m, pow-le-size m l rb_l, pow-le-size m r rb_r))

-- `rb_height` of the root of a red-black tree returns a height that is at most twice a number `n`, where the tree
-- has at least `2 ^ n - 1` nodes, and changes nothing
pub height-bound :
    (cmp : Ptr → Ptr → ℤ) (nil : Ptr) (s : Store Red) (t : Tree Red) (fuel : ℕ)
    → IsRbTree cmp nil s t
    → size t < fuel
    → (h n : ℕ) × (height fuel s.root s ≡ ok h s) × (h ≤ 2 * n) × (2 ^ n ≤ size t + 1)
height-bound cmp nil s t fuel valid enough =
    let c = valid.colours in
    let n = c.height in
    (
      Tree.height t,
      n,
      height-longest nil s valid.held.sentinel fuel t valid.held.at enough,
      ground (arith, height-le n t c.coloured, c.root),
      pow-le-size n t c.coloured,
    )
