-- ===== src/Rb/Sides.antt =====
-- The two sides of a node, in stores and in trees.
use dsa.Prelude.{◌+◌, ◌≤◌, ◌≡◌, ◌==◌, to_nat, refl, sym, true, ◌∷◌, update, arith}
use dsa.Rb.Defs.{Red, Side, left, right, other, get_child, set_child}
use dsa.Store.Access.{get_left-ok, get_right-ok, set_left-ok, set_right-ok}
use dsa.Store.{Ptr, Store, ok, live}
use dsa.Tree.Rep.{IsRep, IsRepHole, IsAt}
use dsa.Tree.{Tree, node, Hole, ptr, above, count, count_hole, inorder}
use mathlib.Core.List.{append_assoc}

abbrev pub child : Side → Store Red → Ptr → Ptr
child left s = s.left
child right s = s.right

abbrev pub put : Side → Store Red → Ptr → Ptr → Store Red
put left s p v = record s { left = update s.left p v }
put right s p v = record s { right = update s.right p v }

-- a node with `near` on the side `d`
abbrev pub branch : Side → (near : Tree Red) → Ptr → Red → (far : Tree Red) → Tree Red
branch left near a c far = node near a c far
branch right near a c far = node far a c near

pub get_child-ok :
    (d : Side) (s : Store Red) (p : Ptr)
    → live s.allocated p ≡ true
    → get_child d p s ≡ ok (child d s p) s
get_child-ok left s p there = get_left-ok s p there
get_child-ok right s p there = get_right-ok s p there

pub set_child-ok :
    (d : Side) (s : Store Red) (p v : Ptr)
    → live s.allocated p ≡ true
    → set_child d p v s ≡ ok tt (put d s p v)
set_child-ok left s p v there = set_left-ok s p there v
set_child-ok right s p v there = set_right-ok s p there v

pub child-put : (d : Side) (s : Store Red) (p v : Ptr) → child d (put (other d) s p v) ≡ child d s
child-put left s p v = refl
child-put right s p v = refl

pub allocated-put : (d : Side) (s : Store Red) (p v : Ptr) → (put d s p v).allocated ≡ s.allocated
allocated-put left s p v = refl
allocated-put right s p v = refl

pub parent-put : (d : Side) (s : Store Red) (p v : Ptr) → (put d s p v).parent ≡ s.parent
parent-put left s p v = refl
parent-put right s p v = refl

-- what a store holds where a rotation is possible: `a` above `b`, and three trees below them
pub record IsPivot (nil : Ptr) (s : Store Red) (h : Hole Red) (d : Side) (t₁ : Tree Red) (a : Ptr)
    (c : Red) (t₂ : Tree Red) (b : Ptr) (e : Red) (t₃ : Tree Red) : Type 0 where
  pub up : IsRepHole nil s a h
  pub there_a : live s.allocated a ≡ true
  pub there_b : live s.allocated b ≡ true
  pub rest_a : s.rest a ≡ c
  pub rest_b : s.rest b ≡ e
  pub parent_a : s.parent a ≡ above nil h
  pub near : child d s a ≡ ptr nil t₁
  pub far : child (other d) s a ≡ b
  pub inner : child d s b ≡ ptr nil t₂
  pub outer : child (other d) s b ≡ ptr nil t₃
  pub rep₁ : IsRep nil s a t₁
  pub rep₂ : IsRep nil s b t₂
  pub rep₃ : IsRep nil s b t₃
  pub once :
      (x : Ptr)
      → count_hole x h
          + (to_nat (x == a) + to_nat (x == b) + (count x t₁ + count x t₂ + count x t₃))
        ≤ 1
  pub absent :
      count_hole nil h
        + (to_nat (nil == a) + to_nat (nil == b) + (count nil t₁ + count nil t₂ + count nil t₃))
      ≡ 0

pub IsAt-IsPivot :
    (nil : Ptr) (s : Store Red) (h : Hole Red) (d : Side) (t₁ : Tree Red) (a : Ptr) (c : Red)
    (t₂ : Tree Red) (b : Ptr) (e : Red) (t₃ : Tree Red)
    → IsAt nil s h (branch d t₁ a c (branch d t₂ b e t₃))
    → IsPivot nil s h d t₁ a c t₂ b e t₃
IsAt-IsPivot nil s h left t₁ a c t₂ b e t₃ at =
    let n = at.down.0 in
    let m = at.down.2.0 in
    record {
      up = at.up;
      there_a = n.there;
      there_b = m.there;
      rest_a = n.rest;
      rest_b = m.rest;
      parent_a = n.parent;
      near = n.left;
      far = n.right;
      inner = m.left;
      outer = m.right;
      rep₁ = at.down.1;
      rep₂ = at.down.2.1;
      rep₃ = at.down.2.2;
      once = λ x. omega (arith, at.once x);
      absent = omega (arith, at.absent);
    }
IsAt-IsPivot nil s h right t₁ a c t₂ b e t₃ at =
    let n = at.down.0 in
    let m = at.down.1.0 in
    record {
      up = at.up;
      there_a = n.there;
      there_b = m.there;
      rest_a = n.rest;
      rest_b = m.rest;
      parent_a = n.parent;
      near = n.right;
      far = n.left;
      inner = m.right;
      outer = m.left;
      rep₁ = at.down.2;
      rep₂ = at.down.1.2;
      rep₃ = at.down.1.1;
      once = λ x. omega (arith, at.once x);
      absent = omega (arith, at.absent);
    }

pub inorder-turn :
    (d : Side) (t₁ : Tree Red) (a : Ptr) (c : Red) (t₂ : Tree Red) (b : Ptr) (e : Red)
    (t₃ : Tree Red)
    → inorder (branch d (branch d t₁ a c t₂) b e t₃)
      ≡ inorder (branch d t₁ a c (branch d t₂ b e t₃))
inorder-turn left t₁ a c t₂ b e t₃ = append_assoc (inorder t₁) (a ∷ inorder t₂) (b ∷ inorder t₃)
inorder-turn right t₁ a c t₂ b e t₃ =
    sym (append_assoc (inorder t₃) (b ∷ inorder t₂) (a ∷ inorder t₁))
