-- ===== src/Rb/Rotate/Turned.antt =====
-- The tree in the store that a rotation leaves behind.
use dsa.Prelude.{
  ◌+◌, ◌≡◌, ◌≢◌, ◌==◌, to_nat, to_nat_eq, to_nat_self, refl, sym, ◌∙◌, subst, true, update, arith,
}
use dsa.Rb.Defs.{Red, Side, left, right}
use dsa.Rb.Replace.{IsHung}
use dsa.Rb.Sides.{branch, IsPivot}
use dsa.Store.{Ptr, Store, live}
use dsa.Tree.Distinct.{ptr-ne, ne_nil, ne_nil_hole}
use dsa.Tree.Frame.{IsRep-Same, IsRepHole-Same, IsRep-reparent}
use dsa.Tree.Rep.{SameBelow, Same, IsRep, IsRepHole}
use dsa.Tree.{Tree, leaf, node, Hole, ptr, count}
use dsa.Rb.Rotate.{half, turned, update-at, update-out}

pub turned-SameBelow :
    (nil : Ptr) (s : Store Red) (h : Hole Red) (d : Side) (a b y x : Ptr)
    → x ≢ a
    → x ≢ b
    → SameBelow s (turned nil s h d a b y) x
turned-SameBelow nil s h left a b y x ne_a ne_b = record {
  allocated = refl;
  left = ground arith;
  right = ground arith;
  rest = refl;
}
turned-SameBelow nil s h right a b y x ne_a ne_b = record {
  allocated = refl;
  left = ground arith;
  right = ground arith;
  rest = refl;
}

half-Same :
    (nil : Ptr) (s : Store Red) (h : Hole Red) (d : Side) (a y x : Ptr)
    → x ≢ a
    → x ≢ y
    → Same s (half nil s h d a y) x
half-Same nil s h left a y x ne_a ne_y =
    (record { allocated = refl; left = refl; right = ground arith; rest = refl }, ground arith)
half-Same nil s h right a y x ne_a ne_y =
    (record { allocated = refl; left = ground arith; right = refl; rest = refl }, ground arith)

-- the fields that the first two writes spare
record IsSpared (s s' : Store Red) : Type 0 where
  root : s'.root ≡ s.root
  allocated : s'.allocated ≡ s.allocated

half-IsSpared :
    (nil : Ptr) (s : Store Red) (h : Hole Red) (d : Side) (a y : Ptr)
    → IsSpared s (half nil s h d a y)
half-IsSpared nil s h left a y = record { root = refl; allocated = refl }
half-IsSpared nil s h right a y = record { root = refl; allocated = refl }

root-turned :
    (nil : Ptr) (s : Store Red) (h : Hole Red) (d : Side) (a b y : Ptr)
    → (turned nil s h d a b y).root ≡ s.root
root-turned nil s h left a b y = refl
root-turned nil s h right a b y = refl

module _ {nil : Ptr} {s : Store Red} {h : Hole Red} (d : Side) {t₁ : Tree Red} {a : Ptr} {c : Red}
    {t₂ : Tree Red} {b : Ptr} {e : Red} {t₃ : Tree Red}
    (v : IsPivot nil s h d t₁ a c t₂ b e t₃) where
  abbrev here : Store Red
  here = turned nil s h d a b (ptr nil t₂)

  pub a_ne_b : a ≢ b
  a_ne_b q = omega (arith, v.once a, to_nat_self a, to_nat_eq q)

  pub a_ne_nil : a ≢ nil
  a_ne_nil q = omega (arith, v.absent, to_nat_eq (sym q))

  ne_inner : (x : Ptr) → x ≢ nil → count x t₂ ≡ 0 → x ≢ ptr nil t₂
  ne_inner x ne out q = ptr-ne nil x t₂ ne out (sym q)

  spare : (x : Ptr) → x ≢ a → x ≢ b → x ≢ ptr nil t₂ → Same s here x
  spare x ne_a ne_b ne_y = (turned-SameBelow nil s h d a b (ptr nil t₂) x ne_a ne_b, ground arith)

  pub spare_part :
      (x : Ptr) → x ≢ nil → to_nat (x == a) + to_nat (x == b) + count x t₂ ≡ 0 → Same s here x
  spare_part x ne out =
      spare x (λ q. omega (arith, out, to_nat_eq q)) (λ q. omega (arith, out, to_nat_eq q))
        (ne_inner x ne (omega (arith, out)))

  parent-inner : (x : Ptr) → x ≢ a → update (update s.parent x a) a b x ≡ a
  parent-inner x ne = ground arith

  pub up_turned : IsRepHole nil here a h
  up_turned =
      IsRepHole-Same nil h a v.up
        (λ x i.
          spare_part x (ne_nil_hole nil x h (omega (arith, v.absent)) i)
            (omega (arith, v.once x, i)))
        (root-turned nil s h d a b (ptr nil t₂))

  rep₁_turned : IsRep nil here a t₁
  rep₁_turned =
      IsRep-Same nil t₁ a v.rep₁ λ x i.
        spare_part x (ne_nil nil x t₁ (omega (arith, v.absent)) i) (omega (arith, v.once x, i))

  rep₃_turned : IsRep nil here b t₃
  rep₃_turned =
      IsRep-Same nil t₃ b v.rep₃ λ x i.
        spare_part x (ne_nil nil x t₃ (omega (arith, v.absent)) i) (omega (arith, v.once x, i))

  rep₂_turned : IsRep nil here a t₂
  rep₂_turned =
      IsRep-reparent nil t₂ b a v.rep₂ (λ x. omega (arith, v.once x))
        (λ x i.
          turned-SameBelow nil s h d a b (ptr nil t₂) x
            (λ q. omega (arith, v.once x, i, to_nat_eq q))
            (λ q. omega (arith, v.once x, i, to_nat_eq q)))
        (λ x i ne.
          (spare x (λ q. omega (arith, v.once x, i, to_nat_eq q))
            (λ q. omega (arith, v.once x, i, to_nat_eq q)) ne).1)
        (λ i. parent-inner (ptr nil t₂) (λ q. omega (arith, v.once (ptr nil t₂), i, to_nat_eq q)))

  pub half-IsHung : IsHung nil (half nil s h d a (ptr nil t₂)) a b h
  half-IsHung =
      let k = half-IsSpared nil s h d a (ptr nil t₂) in
      let ne : a ≢ ptr nil t₂ = ne_inner a a_ne_nil (omega (arith, v.once a, to_nat_self a)) in
      record {
        up =
            IsRepHole-Same nil h a v.up
              (λ x i.
                half-Same nil s h d a (ptr nil t₂) x (λ q. omega (arith, v.once x, i, to_nat_eq q))
                  (ne_inner x (ne_nil_hole nil x h (omega (arith, v.absent)) i)
                    (omega (arith, v.once x, i))))
              k.root;
        there = subst (λ f. live f a ≡ true) (sym k.allocated) v.there_a;
        parent = update-out s.parent (ptr nil t₂) a a ne ∙ v.parent_a;
        apart = omega (arith, v.once a, to_nat_self a);
        outer = a_ne_nil;
        by = subst (λ f. live f b ≡ true) (sym k.allocated) v.there_b;
      }

-- the two nodes have exchanged their places
pub turned-IsRep :
    (nil : Ptr) (s : Store Red) (h : Hole Red) (d : Side) (t₁ : Tree Red) (a : Ptr) (c : Red)
    (t₂ : Tree Red) (b : Ptr) (e : Red) (t₃ : Tree Red) (v : IsPivot nil s h d t₁ a c t₂ b e t₃)
    → IsRep nil
        (turned nil s h d a b (ptr nil t₂))
        ((turned nil s h d a b (ptr nil t₂)).parent b)
        (branch d (branch d t₁ a c t₂) b e t₃)
turned-IsRep nil s h left t₁ a c t₂ b e t₃ v =
    let ne = a_ne_b left v in
    (
      record {
        there = v.there_b;
        parent = refl;
        left = update-at s.left b a;
        right = update-out s.right a b (ptr nil t₂) (λ q. ne (sym q)) ∙ v.outer;
        rest = v.rest_b;
      },
      (
        record {
          there = v.there_a;
          parent = update-at (update s.parent (ptr nil t₂) a) a b;
          left = update-out s.left b a a ne ∙ v.near;
          right = update-at s.right a (ptr nil t₂);
          rest = v.rest_a;
        },
        rep₁_turned left v,
        rep₂_turned left v,
      ),
      rep₃_turned left v,
    )
turned-IsRep nil s h right t₁ a c t₂ b e t₃ v =
    let ne = a_ne_b right v in
    (
      record {
        there = v.there_b;
        parent = refl;
        left = update-out s.left a b (ptr nil t₂) (λ q. ne (sym q)) ∙ v.outer;
        right = update-at s.right b a;
        rest = v.rest_b;
      },
      rep₃_turned right v,
      (
        record {
          there = v.there_a;
          parent = update-at (update s.parent (ptr nil t₂) a) a b;
          left = update-at s.left a (ptr nil t₂);
          right = update-out s.right b a a ne ∙ v.near;
          rest = v.rest_a;
        },
        rep₂_turned right v,
        rep₁_turned right v,
      ),
    )

pub ptr-live :
    (nil p : Ptr) (s : Store Red) (t : Tree Red)
    → live s.allocated nil ≡ true
    → IsRep nil s p t
    → live s.allocated (ptr nil t) ≡ true
ptr-live nil p s leaf there d = there
ptr-live nil p s (node l a c r) there d = d.0.there
