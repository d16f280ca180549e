-- ===== src/Rb/Steps.antt =====
-- One step of the way down a tree, to the child on a given side.
use dsa.Prelude.{◌+◌, ◌≡◌, ◌==◌, to_nat, refl, ap, true, ◌∷◌, ◌++◌, arith}
use dsa.Rb.Defs.{Red, Side, left, right, other}
use dsa.Rb.Sides.{child, branch}
use dsa.Store.{Ptr, Store, live}
use dsa.Tree.Rep.{IsAt}
use dsa.Tree.Walk.{go_left, go_right, up_left, up_right}
use dsa.Tree.{Tree, Hole, on_left, on_right, ptr, above, plug, count, count_hole, inorder}

-- the hole below `p` on the side `d`, where `sib` is the other child
abbrev pub step : Side → Ptr → Red → Tree Red → Hole Red → Hole Red
step left p c sib up = on_left p c sib up
step right p c sib up = on_right sib p c up

-- the same node seen from its other side
pub branch-other :
    (d : Side) (near : Tree Red) (a : Ptr) (c : Red) (far : Tree Red)
    → branch d near a c far ≡ branch (other d) far a c near
branch-other left near a c far = refl
branch-other right near a c far = refl

pub ptr-branch :
    (d : Side) (nil : Ptr) (near : Tree Red) (a : Ptr) (c : Red) (far : Tree Red)
    → ptr nil (branch d near a c far) ≡ a
ptr-branch left nil near a c far = refl
ptr-branch right nil near a c far = refl

pub count-branch :
    (d : Side) (x : Ptr) (near : Tree Red) (a : Ptr) (c : Red) (far : Tree Red)
    → count x (branch d near a c far) ≡ to_nat (x == a) + (count x near + count x far)
count-branch left x near a c far = omega arith
count-branch right x near a c far = omega arith

pub count_hole-step :
    (d : Side) (x p : Ptr) (c : Red) (sib : Tree Red) (up : Hole Red)
    → count_hole x (step d p c sib up) ≡ to_nat (x == p) + (count x sib + count_hole x up)
count_hole-step left x p c sib up = omega arith
count_hole-step right x p c sib up = omega arith

pub plug-step :
    (d : Side) (p : Ptr) (c : Red) (sib : Tree Red) (up : Hole Red) (t : Tree Red)
    → plug (step d p c sib up) t ≡ plug up (branch d t p c sib)
plug-step left p c sib up t = refl
plug-step right p c sib up t = refl

pub inorder-branch :
    (d : Side) (p : Ptr) (c c' : Red) (sib t t' : Tree Red)
    → inorder t' ≡ inorder t
    → inorder (branch d t' p c' sib) ≡ inorder (branch d t p c sib)
inorder-branch left p c c' sib t t' e = ap (λ xs. xs ++ (p ∷ inorder sib)) e
inorder-branch right p c c' sib t t' e = ap (λ xs. inorder sib ++ (p ∷ xs)) e

-- what the store holds at a node of the tree
pub record IsJoint (s : Store Red) (d : Side) (p : Ptr) (c : Red) (q r high : Ptr) : Type 0 where
  pub there : live s.allocated p ≡ true
  pub parent : s.parent p ≡ high
  pub near : child d s p ≡ q
  pub far : child (other d) s p ≡ r
  pub rest : s.rest p ≡ c

module _ (nil : Ptr) (s : Store Red) (p : Ptr) (c : Red) (sib : Tree Red) (up : Hole Red)
    (t : Tree Red) where
  pub in_near : (d : Side) → IsAt nil s up (branch d t p c sib) → IsAt nil s (step d p c sib up) t
  in_near left at = go_left nil up t p c sib at
  in_near right at = go_right nil up sib p c t at

  pub out_near : (d : Side) → IsAt nil s (step d p c sib up) t → IsAt nil s up (branch d t p c sib)
  out_near left at = up_left nil up t p c sib at
  out_near right at = up_right nil up sib p c t at

  pub IsAt-IsJoint :
      (d : Side)
      → IsAt nil s up (branch d t p c sib)
      → IsJoint s d p c (ptr nil t) (ptr nil sib) (above nil up)
  IsAt-IsJoint left at =
      let n = at.down.0 in
      record { there = n.there; parent = n.parent; near = n.left; far = n.right; rest = n.rest }
  IsAt-IsJoint right at =
      let n = at.down.0 in
      record { there = n.there; parent = n.parent; near = n.right; far = n.left; rest = n.rest }
