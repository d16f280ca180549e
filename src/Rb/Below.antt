-- ===== src/Rb/Below.antt =====
-- Going below a node, and coming back with a change.
use dsa.Prelude.{
  ◌+◌, ◌≡◌, refl, sym, ◌∙◌, ap, ◌==◌, to_nat, to_nat_eq, to_nat_self, ==_false, true, false, arith,
}
use dsa.Rb.Change.{Held, Change, Change-near}
use dsa.Rb.Colours.{red_root}
use dsa.Rb.Defs.{Red, Side, left, right, other}
use dsa.Rb.Sentinel.{IsSentinel}
use dsa.Rb.Sides.{branch}
use dsa.Rb.Steps.{step, count-branch, in_near, IsJoint, IsAt-IsJoint}
use dsa.Store.Access.{get_rest-ok}
use dsa.Store.Returns.{Returns, mono}
use dsa.Store.{Ptr, Store, Run, ok, live, get_rest}
use dsa.Tree.Rep.{IsRep}
use dsa.Tree.{Tree, leaf, node, Hole, ptr, above, count}
use dsa.Tree.Distinct.{ptr-ne}

pub above-step :
    (d : Side) (nil p : Ptr) (c : Red) (sib : Tree Red) (up : Hole Red)
    → above nil (step d p c sib up) ≡ p
above-step left nil p c sib up = refl
above-step right nil p c sib up = refl

-- a read of the colour of a tree's root, the sentinel's where the tree is empty
pub root_live :
    {nil : Ptr} {s : Store Red} (p : Ptr) (t : Tree Red)
    → IsSentinel nil s
    → IsRep nil s p t
    → live s.allocated (ptr nil t) ≡ true
root_live p leaf z d = z.there
root_live p (node l a c r) z d = d.0.there

pub root_colour :
    {nil : Ptr} {s : Store Red} (p : Ptr) (t : Tree Red)
    → IsSentinel nil s
    → IsRep nil s p t
    → get_rest (ptr nil t) s ≡ ok (red_root t) s
root_colour {s = s} p leaf z d = get_rest-ok s _ z.there ∙ ap (λ c. ok c s) z.black
root_colour {s = s} p (node l a c r) z d = get_rest-ok s a d.0.there ∙ ap (λ c. ok c s) d.0.rest

module _ {nil : Ptr} {s : Store Red} (d : Side) (p : Ptr) (c : Red) (up : Hole Red) where
  pub Held-near :
      (t sib : Tree Red) → Held nil s up (branch d t p c sib) → Held nil s (step d p c sib up) t
  Held-near t sib held = record {
    at = in_near nil s p c sib up t d held.at;
    sentinel = held.sentinel;
  }

  pub joint :
      (t sib : Tree Red)
      → Held nil s up (branch d t p c sib)
      → IsJoint s d p c (ptr nil t) (ptr nil sib) (above nil up)
  joint t sib held = IsAt-IsJoint nil s p c sib up t d held.at

  pub near-Change :
      {A : Type 0} {r : Run Red A} (t t' sib : Tree Red)
      → Returns (λ _. Change nil s (step d p c sib up) t t') r
      → Returns (λ _. Change nil s up (branch d t p c sib) (branch d t' p c sib)) r
  near-Change t t' sib q = mono q λ _ s' e. Change-near d p c sib up t t' e

pub Held-far :
    {nil : Ptr} {s : Store Red} (d : Side) (p : Ptr) (c : Red) (up : Hole Red) (sib t : Tree Red)
    → Held nil s up (branch d sib p c t)
    → Held nil s (step (other d) p c sib up) t
Held-far left p c up sib t held = Held-near right p c up t sib held
Held-far right p c up sib t held = Held-near left p c up t sib held

pub far-Change :
    {nil : Ptr} {s : Store Red} (d : Side) (p : Ptr) (c : Red) (up : Hole Red) {A : Type 0}
    {r : Run Red A} (sib t t' : Tree Red)
    → Returns (λ _. Change nil s (step (other d) p c sib up) t t') r
    → Returns (λ _. Change nil s up (branch d sib p c t) (branch d sib p c t')) r
far-Change left p c up sib t t' q = near-Change right p c up t t' sib q
far-Change right p c up sib t t' q = near-Change left p c up t t' sib q

-- the heads of the two trees below a node are two nodes
pub heads-ne :
    {nil : Ptr} {s : Store Red} (d b : Side) (t₁ : Tree Red) (x : Ptr) (c : Red) (t₂ : Tree Red)
    (p : Ptr) (e : Red) (sib : Tree Red) (up : Hole Red)
    → Held nil s up (branch d (branch b t₁ x c t₂) p e sib)
    → (x == ptr nil sib) ≡ false
heads-ne {nil} d b t₁ x c t₂ p e sib up held = ==_false λ q.
    ptr-ne nil x sib (λ z. omega (arith, held.at.absent, (parts nil), to_nat_eq (sym z)))
      (omega (arith, held.at.once x, parts x, to_nat_self x)) (sym q)
  where
    parts :
        (y : Ptr)
        → count y (branch d (branch b t₁ x c t₂) p e sib)
          ≡ to_nat (y == p) + (to_nat (y == x) + (count y t₁ + count y t₂) + count y sib)
    parts y =
        omega (arith, count-branch d y (branch b t₁ x c t₂) p e sib, count-branch b y t₁ x c t₂)
