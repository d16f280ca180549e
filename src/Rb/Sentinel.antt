-- ===== src/Rb/Sentinel.antt =====
-- The sentinel: `rb_init`, the test `RB_NIL`, and `rb_height`, which ends there.
use dsa.Prelude.{
  ℕ, zero, suc, ◌+◌, ◌<◌, ◌≡◌, ◌==◌, refl, ◌∙◌, ap, true, false, if◌then◌else◌, ltb, arith,
}
use dsa.Rb.Defs.{Red, init, is_nil, height}
use dsa.Store.Access.{live-not_null, get_left-ok, get_right-ok}
use dsa.Store.Returns.{Returns, returns}
use dsa.Store.{Ptr, null, Store, ok, live, set_parent, set_left, set_right, set_rest}
use dsa.Tree
use dsa.Tree.Rep.{IsRep, IsTree}
use dsa.Tree.{Tree, leaf, node, ptr, size}

-- a black node without children, which no tree contains
pub record IsSentinel (nil : Ptr) (s : Store Red) : Type 0 where
  pub there : live s.allocated nil ≡ true
  pub left : s.left nil ≡ null
  pub right : s.right nil ≡ null
  pub black : s.rest nil ≡ false

-- `rb_init` in any memory that has the sentinel leaves an empty tree, and the sentinel black and
-- without children
pub init-IsTree :
    (nil : Ptr) (s : Store Red)
    → live s.allocated nil ≡ true
    → Returns (λ _ s'. IsTree nil s' leaf × IsSentinel nil s') (init nil s)
unfolding init set_parent set_left set_right set_rest
init-IsTree nil s there = rw there (
    rw there (
      rw there (
        rw there (
          returns (
            record { up = refl; down = tt; once = λ x. omega arith; absent = refl },
            record {
              there = there;
              left = ground arith;
              right = ground arith;
              black = ground arith;
            },
          )))))

pub init-allocated :
    (nil : Ptr) (s : Store Red)
    → live s.allocated nil ≡ true
    → Returns (λ _ s'. s'.allocated ≡ s.allocated) (init nil s)
unfolding init set_parent set_left set_right set_rest
init-allocated nil s there = rw there (rw there (rw there (rw there (returns refl))))

max_suc :
    (m n : ℕ) → (if ltb (1 + n) (1 + m) then 1 + m else 1 + n) ≡ 1 + (if ltb n m then m else n)
max_suc m n = ground arith

module _ (nil : Ptr) (s : Store Red) (z : IsSentinel nil s) where
  pub is_nil-sentinel : is_nil nil s ≡ ok true s
  unfolding is_nil
  is_nil-sentinel = rw (get_left-ok s nil z.there, z.left)

  pub ptr-not_null : (p : Ptr) (t : Tree Red) → IsRep nil s p t → (ptr nil t == null) ≡ false
  ptr-not_null p leaf d = live-not_null s.allocated nil z.there
  ptr-not_null p (node l a c r) d = live-not_null s.allocated a d.0.there

  pub is_nil-node :
      (p : Ptr) (l : Tree Red) (a : Ptr) (c : Red) (r : Tree Red)
      → IsRep nil s p (node l a c r)
      → is_nil a s ≡ ok false s
  unfolding is_nil
  is_nil-node p l a c r (n, dl, dr) = rw (get_left-ok s a n.there, n.left, ptr-not_null a l dl)

  height-tree :
      (k : ℕ) (t : Tree Red) (p : Ptr)
      → size t < k
      → IsRep nil s p t
      → height k (ptr nil t) s ≡ ok (Tree.height t) s
  unfolding height
  height-tree zero t p fuel d = absurd (omega arith)
  height-tree (suc k) leaf p fuel d = rw is_nil-sentinel
  height-tree (suc k) (node l a c r) p fuel (n, dl, dr) =
      rw
        (
          is_nil-node p l a c r (n, dl, dr),
          get_left-ok s a n.there,
          n.left,
          height-tree k l a (omega arith) dl,
          get_right-ok s a n.there,
          n.right,
          height-tree k r a (omega arith) dr,
        )
        (ap (λ m. ok m s) (max_suc (Tree.height l) (Tree.height r)))

  -- `rb_height` of the root is the number of nodes on the longest way down, the sentinel not counted
  pub height-longest :
      (fuel : ℕ) (t : Tree Red)
      → IsTree nil s t
      → size t < fuel
      → height fuel s.root s ≡ ok (Tree.height t) s
  height-longest fuel t at enough =
      ap (λ n. height fuel n s) at.up ∙ height-tree fuel t nil enough at.down
