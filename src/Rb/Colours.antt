-- ===== src/Rb/Colours.antt =====
-- The colour invariant of a red-black tree, and of a tree with a hole.
use dsa.Prelude.{ℕ, ◌+◌, ◌≡◌, refl, Bool, true, false, ◌&&◌, subst, arith}
use dsa.Rb.Defs.{Red, Side, left, right}
use dsa.Rb.Sides.{branch}
use dsa.Rb.Steps.{step}
use dsa.Store.{Ptr}
use dsa.Tree.{Tree, leaf, node, Hole, top, on_left, on_right, plug}

-- what a node adds to the number of black nodes on a way down
abbrev pub weight : Red → ℕ
weight true = 0
weight false = 1

abbrev pub red_root : Tree Red → Bool
red_root leaf = false
red_root (node l a c r) = c

-- the colour of the node above a hole: as the loop of `rb_insert` reads it, where the sentinel is
-- black, and as the invariant wants it, where the root of a whole tree is black
abbrev pub red_parent : Hole Red → Bool
red_parent top = false
red_parent (on_left a c r up) = c
red_parent (on_right l a c up) = c

abbrev pub red_above : Hole Red → Bool
red_above top = true
red_above (on_left a c r up) = c
red_above (on_right l a c up) = c

-- a tree below a node of the colour `c`: not both are red
abbrev pub Calm : Red → Tree Red → Type 0
Calm c t = (c && red_root t) ≡ false

-- no red node has a red child, and every way down meets `n` black nodes
abbrev pub IsRb : ℕ → Tree Red → Type 0
IsRb n leaf = n ≡ 0
IsRb n (node l a c r) = (m : ℕ) × (n ≡ weight c + m) × Calm c l × Calm c r × IsRb m l × IsRb m r

-- the same around a hole, which wants a tree with `n` black nodes on every way down
abbrev pub IsRbHole : ℕ → Hole Red → Type 0
IsRbHole n top = Unit {0}
IsRbHole n (on_left a c r up) =
    Calm c r × IsRb n r × ((c && red_above up) ≡ false) × IsRbHole (weight c + n) up
IsRbHole n (on_right l a c up) =
    Calm c l × IsRb n l × ((c && red_above up) ≡ false) × IsRbHole (weight c + n) up

-- the whole invariant: the root is black too
pub record IsRedBlack (t : Tree Red) : Type 0 where
  pub root : red_root t ≡ false
  pub height : ℕ
  pub coloured : IsRb height t

-- what the invariant says of the parts of a tree
pub record IsRbNode (n : ℕ) (p q : Tree Red) (c : Red) : Type 0 where
  pub below : ℕ
  pub height : n ≡ weight c + below
  pub calm_near : Calm c p
  pub calm_far : Calm c q
  pub near : IsRb below p
  pub far : IsRb below q

pub IsRb-parts :
    (d : Side) (n : ℕ) (p : Tree Red) (a : Ptr) (c : Red) (q : Tree Red)
    → IsRb n (branch d p a c q)
    → IsRbNode n p q c
IsRb-parts left n p a c q (m, e, calm_l, calm_r, l, r) = record {
  below = m;
  height = e;
  calm_near = calm_l;
  calm_far = calm_r;
  near = l;
  far = r;
}
IsRb-parts right n p a c q (m, e, calm_l, calm_r, l, r) = record {
  below = m;
  height = e;
  calm_near = calm_r;
  calm_far = calm_l;
  near = r;
  far = l;
}

pub IsRb-branch :
    (d : Side) (m n : ℕ) (p : Tree Red) (a : Ptr) (c : Red) (q : Tree Red)
    → n ≡ weight c + m
    → Calm c p
    → Calm c q
    → IsRb m p
    → IsRb m q
    → IsRb n (branch d p a c q)
IsRb-branch left m n p a c q e calm_p calm_q rp rq = (m, e, calm_p, calm_q, rp, rq)
IsRb-branch right m n p a c q e calm_p calm_q rp rq = (m, e, calm_q, calm_p, rq, rp)

pub red_root-branch :
    (d : Side) (p : Tree Red) (a : Ptr) (c : Red) (q : Tree Red) → red_root (branch d p a c q) ≡ c
red_root-branch left p a c q = refl
red_root-branch right p a c q = refl

pub record IsRbStep (n : ℕ) (c : Red) (sib : Tree Red) (up : Hole Red) : Type 0 where
  pub calm : Calm c sib
  pub sibling : IsRb n sib
  pub calm_above : (c && red_above up) ≡ false
  pub rest : IsRbHole (weight c + n) up

pub IsRbHole-parts :
    (d : Side) (n : ℕ) (a : Ptr) (c : Red) (sib : Tree Red) (up : Hole Red)
    → IsRbHole n (step d a c sib up)
    → IsRbStep n c sib up
IsRbHole-parts left n a c sib up (p, q, r, u) = record {
  calm = p;
  sibling = q;
  calm_above = r;
  rest = u;
}
IsRbHole-parts right n a c sib up (p, q, r, u) = record {
  calm = p;
  sibling = q;
  calm_above = r;
  rest = u;
}

pub red_parent-above :
    (c : Red) (up : Hole Red) → (c && red_above up) ≡ false → (c && red_parent up) ≡ false
red_parent-above true top h = cc
red_parent-above false top h = refl
red_parent-above c (on_left a d r up) h = h
red_parent-above c (on_right l a d up) h = h

-- a coloured tree in a coloured hole
pub IsRb-plug :
    (n : ℕ) (h : Hole Red) (t : Tree Red)
    → IsRbHole n h
    → IsRb n t
    → (red_root t && red_parent h) ≡ false
    → (m : ℕ) × IsRb m (plug h t)
IsRb-plug n top t hole tree calm = (n, tree)
IsRb-plug n (on_left a c r up) t (calm_r, rb_r, calm_up, rest) tree calm =
    IsRb-plug (weight c + n) up (node t a c r) rest
      (n, refl, ground (arith, calm), calm_r, tree, rb_r) (red_parent-above c up calm_up)
IsRb-plug n (on_right l a c up) t (calm_l, rb_l, calm_up, rest) tree calm =
    IsRb-plug (weight c + n) up (node l a c t) rest
      (n, refl, calm_l, ground (arith, calm), rb_l, tree) (red_parent-above c up calm_up)

-- a black root may be painted black
pub paint_root :
    (n : ℕ) (l : Tree Red) (a : Ptr) (c : Red) (r : Tree Red)
    → IsRb n (node l a c r)
    → IsRedBlack (node l a false r)
paint_root n l a c r (m, e, calm_l, calm_r, rb_l, rb_r) = record {
  root = refl;
  height = 1 + m;
  coloured = (m, refl, refl, refl, rb_l, rb_r);
}

pub IsRb-eq : {m n : ℕ} (t : Tree Red) → m ≡ n → IsRb m t → IsRb n t
IsRb-eq t e rb = subst (λ k. IsRb k t) e rb

pub IsRbHole-eq : {m n : ℕ} (h : Hole Red) → m ≡ n → IsRbHole m h → IsRbHole n h
IsRbHole-eq h e rb = subst (λ k. IsRbHole k h) e rb
