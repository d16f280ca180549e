-- ===== src/Rb/Change.antt =====
-- A change of the subtree in a hole that keeps its nodes and their order: painting, rotating, and
-- how such changes follow one another.
use dsa.Prelude.{◌+◌, ◌<◌, ◌≡◌, ◌≢◌, to_nat_eq, refl, sym, ◌∙◌, update, arith}
use dsa.Rb.Defs.{Red, Side, left, right, other, rotate}
use dsa.Rb.Rotate.Rotated.{rotate-Rotated, count_sides}
use dsa.Rb.Sentinel.{IsSentinel}
use dsa.Rb.Sides.{branch}
use dsa.Rb.Steps.{step, count-branch, count_hole-step, inorder-branch, out_near}
use dsa.Store.Access.{set_rest-ok}
use dsa.Store.Returns.{Returns, of_eq, mono}
use dsa.Store.{Ptr, Store, live, set_rest}
use dsa.Tree.Frame.{IsRep-Same, IsRepHole-Same, Same-trans, set_rest-Same}
use dsa.Tree.Rep.{SameBelow, Same, IsAt}
use dsa.Tree.{Tree, node, Hole, top, on_left, on_right, plug, count, count_hole, inorder}

-- the sentinel stays as it is, but for its parent
pub IsSentinel-SameBelow :
    (nil : Ptr) (s s' : Store Red) → SameBelow s s' nil → IsSentinel nil s → IsSentinel nil s'
unfolding live
IsSentinel-SameBelow nil s s' same z = record {
  there = ground (arith, z.there, same.allocated);
  left = same.left ∙ z.left;
  right = same.right ∙ z.right;
  black = same.rest ∙ z.black;
}

-- the tree stands in the hole, beside a sentinel
pub record Held (nil : Ptr) (s : Store Red) (h : Hole Red) (t : Tree Red) : Type 0 where
  pub at : IsAt nil s h t
  pub sentinel : IsSentinel nil s

pub record Change (nil : Ptr) (s : Store Red) (h : Hole Red) (old new : Tree Red) (s' : Store Red)
    : Type 0 where
  pub held : Held nil s' h new
  pub order : inorder new ≡ inorder old
  pub nodes : (x : Ptr) → count x new ≡ count x old
  pub allocated : s'.allocated ≡ s.allocated
  pub same : (x : Ptr) → count_hole x h + count x old ≡ 0 → x ≢ nil → Same s s' x

module _ {nil : Ptr} where
  pub Change-refl :
      {s : Store Red} {h : Hole Red} {t : Tree Red} → Held nil s h t → Change nil s h t t s
  Change-refl held = record {
    held = held;
    order = refl;
    nodes = λ x. refl;
    allocated = refl;
    same = λ x o ne. (record { allocated = refl; left = refl; right = refl; rest = refl }, refl);
  }

  pub Change-trans :
      {s s' s'' : Store Red} {h : Hole Red} {t t' t'' : Tree Red}
      → Change nil s h t t' s'
      → Change nil s' h t' t'' s''
      → Change nil s h t t'' s''
  Change-trans p q = record {
    held = q.held;
    order = q.order ∙ p.order;
    nodes = λ x. q.nodes x ∙ p.nodes x;
    allocated = q.allocated ∙ p.allocated;
    same = λ x o ne. Same-trans (p.same x o ne) (q.same x (omega (arith, o, p.nodes x)) ne);
  }

  -- a change below a node is a change of the tree that the node heads
  pub Change-near :
      {s s' : Store Red} (d : Side) (p : Ptr) (c : Red) (sib : Tree Red) (up : Hole Red)
      (t t' : Tree Red)
      → Change nil s (step d p c sib up) t t' s'
      → Change nil s up (branch d t p c sib) (branch d t' p c sib) s'
  Change-near {s} {s'} d p c sib up t t' q = record {
    held = record { at = out_near nil s' p c sib up t' d q.held.at; sentinel = q.held.sentinel };
    order = inorder-branch d p c c sib t t' q.order;
    nodes = λ x. omega (arith, count-branch d x t p c sib, count-branch d x t' p c sib, q.nodes x);
    allocated = q.allocated;
    same = λ x o.
        q.same x (omega (arith, o, count-branch d x t p c sib, count_hole-step d x p c sib up));
  }

  pub Change-plug :
      {s s' : Store Red} (h : Hole Red) (t t' : Tree Red)
      → Change nil s h t t' s'
      → Change nil s top (plug h t) (plug h t') s'
  Change-plug top t t' q = q
  Change-plug (on_left p c sib up) t t' q =
      Change-plug up (node t p c sib) (node t' p c sib) (Change-near left p c sib up t t' q)
  Change-plug (on_right sib p c up) t t' q =
      Change-plug up (node sib p c t) (node sib p c t') (Change-near right p c sib up t t' q)

  pub painted-Change :
      (s : Store Red) (h : Hole Red) (l : Tree Red) (a : Ptr) (c c' : Red) (r : Tree Red)
      → Held nil s h (node l a c r)
      → Change nil s h (node l a c r) (node l a c' r) (record s { rest = update s.rest a c' })
  painted-Change s h l a c c' r held =
      let at = held.at in
      let n = at.down.0 in
      let spare = λ (x : Ptr) (i : 0 < count_hole x h + count x l + count x r).
        set_rest-Same s a c' x (λ e. omega (arith, at.once x, to_nat_eq e, i)) in
      let apart : nil ≢ a = λ e. omega (arith, at.absent, to_nat_eq e) in
      record {
        held = record {
          at = record {
            up = IsRepHole-Same nil h a at.up (λ x i. spare x (omega (arith, i))) refl;
            down = (
              record {
                there = n.there;
                parent = n.parent;
                left = n.left;
                right = n.right;
                rest = ground arith;
              },
              IsRep-Same nil l a at.down.1 (λ x i. spare x (omega (arith, i))),
              IsRep-Same nil r a at.down.2 (λ x i. spare x (omega (arith, i))),
            );
            once = λ x. omega (arith, at.once x);
            absent = omega (arith, at.absent);
          };
          sentinel =
              IsSentinel-SameBelow nil s (record s { rest = update s.rest a c' })
                (set_rest-Same s a c' nil apart).0 held.sentinel;
        };
        order = refl;
        nodes = λ x. refl;
        allocated = refl;
        same = λ x o ne. set_rest-Same s a c' x (λ e. omega (arith, o, to_nat_eq e));
      }

  -- one write of a colour
  pub paint :
      (s : Store Red) (h : Hole Red) (d : Side) (l : Tree Red) (a : Ptr) (c c' : Red) (r : Tree Red)
      → Held nil s h (branch d l a c r)
      → Returns (λ _. Change nil s h (branch d l a c r) (branch d l a c' r)) (set_rest a c' s)
  paint s h left l a c c' r held =
      of_eq tt (record s { rest = update s.rest a c' }) (set_rest-ok s a held.at.down.0.there c')
        (painted-Change s h l a c c' r held)
  paint s h right l a c c' r held =
      of_eq tt (record s { rest = update s.rest a c' }) (set_rest-ok s a held.at.down.0.there c')
        (painted-Change s h r a c c' l held)

  pub rotate-Change :
      (s : Store Red) (h : Hole Red) (d : Side) (t₁ : Tree Red) (a : Ptr) (c : Red) (t₂ : Tree Red)
      (b : Ptr) (e : Red) (t₃ : Tree Red)
      → Held nil s h (branch d t₁ a c (branch d t₂ b e t₃))
      → Returns
          (λ _.
            Change nil s h
              (branch d t₁ a c (branch d t₂ b e t₃))
              (branch d (branch d t₁ a c t₂) b e t₃))
          (rotate d a s)
  rotate-Change s h d t₁ a c t₂ b e t₃ held =
      mono (rotate-Rotated nil s h d t₁ a c t₂ b e t₃ held.sentinel.there held.at) λ _ s' q.
        let counts = λ (x : Ptr). count_sides d t₁ a c t₂ b e t₃ x in
        record {
          held = record {
            at = q.at;
            sentinel = IsSentinel-SameBelow nil s s' q.sentinel held.sentinel;
          };
          order = q.order;
          nodes = λ x. (counts x).1 ∙ sym (counts x).0;
          allocated = q.allocated;
          same = q.same;
        }

  -- the rotation undone: the same, seen from the other side
  pub rotate_back-Change :
      (s : Store Red) (h : Hole Red) (d : Side) (t₁ : Tree Red) (a : Ptr) (c : Red) (t₂ : Tree Red)
      (b : Ptr) (e : Red) (t₃ : Tree Red)
      → Held nil s h (branch d (branch d t₁ a c t₂) b e t₃)
      → Returns
          (λ _.
            Change nil s h
              (branch d (branch d t₁ a c t₂) b e t₃)
              (branch d t₁ a c (branch d t₂ b e t₃)))
          (rotate (other d) b s)
  rotate_back-Change s h left t₁ a c t₂ b e t₃ held = rotate-Change s h right t₃ b e t₂ a c t₁ held
  rotate_back-Change s h right t₁ a c t₂ b e t₃ held = rotate-Change s h left t₃ b e t₂ a c t₁ held
