-- ===== src/Rb/Delete/Round.antt =====
-- One round of the loop of `rb_delete` at a black sibling.
use dsa.Prelude.{
  ℕ, ◌+◌, ◌≡◌, ◌⊎◌, inl, inr, refl, sym, ◌∙◌, ap, subst, Bool, true, false, not, ◌&&◌,
  if◌then◌else◌, arith,
}
use dsa.Rb.Below.{Held-near, Held-far, joint, far-Change, root_colour}
use dsa.Rb.Change.{Held, Change, Change-trans, paint}
use dsa.Rb.Colours.{red_root, weight, IsRb, IsRb-branch, red_root-branch, IsRb-eq}
use dsa.Rb.Defs.{Red, Side, left, right, other}
use dsa.Rb.Delete.Close.{close, close-Change}
use dsa.Rb.Delete.{turn_out}
use dsa.Rb.Sides.{branch}
use dsa.Rb.Steps.{step, ptr-branch}
use dsa.Store.Access.{get_left-ok, get_right-ok}
use dsa.Store.Returns.{Returns, returns, bind, mono}
use dsa.Store.{
  Ptr, Store, ok, Cmd, pure, ◌>>=◌, ◌>>◌, live, get_left, get_right, get_rest, set_rest,
}
use dsa.Tree.{Tree, leaf, node, Hole, ptr, above}

-- a tree with a black root
abbrev pub blackened : Tree Red → Tree Red
blackened leaf = leaf
blackened (node l a c r) = node l a false r

-- The tree carries an extra black: a black node is missing in it, and would not be if a red root were black.
abbrev pub Short : ℕ → Tree Red → Type 0
Short n t = ((red_root t ≡ true) × IsRb (1 + n) (blackened t)) ⊎ ((red_root t ≡ false) × IsRb n t)

-- the statements after those for a red sibling
abbrev pub lift_black : Side → (extra parent sibling : Ptr) → Cmd Red (Ptr × Bool)
lift_black d extra parent sibling = do
  l ← get_left sibling
  l_red ← get_rest l
  black ←
      if l_red then pure false else do r ← get_right sibling; r_red ← get_rest r; pure (not r_red)
  if black
      then (do set_rest sibling true; pure (parent, false))
      else (do last ← turn_out d parent sibling; close d extra parent last)

abbrev nephews : {A : Type 0} → Ptr → (Bool → Cmd Red A) → Cmd Red A
nephews sibling next = do
  l ← get_left sibling
  l_red ← get_rest l
  black ←
      if l_red then pure false else do r ← get_right sibling; r_red ← get_rest r; pure (not r_red)
  next black

module _ {A : Type 0} (s : Store Red) (b : Ptr) (next : Bool → Cmd Red A) where
  nephews_run :
      (l r : Bool) (p q : Ptr)
      → live s.allocated b ≡ true
      → s.left b ≡ p
      → s.right b ≡ q
      → get_rest p s ≡ ok l s
      → get_rest q s ≡ ok r s
      → nephews b next s ≡ next (not l && not r) s
  nephews_run true r p q there e f g h = rw (get_left-ok s b there, e, g) refl
  nephews_run false r p q there e f g h =
      rw (get_left-ok s b there, e, g, get_right-ok s b there, f, h) refl

module _ {A : Type 0} {nil : Ptr} (s : Store Red) (up : Hole Red) (b : Ptr) (e : Red)
    (s₁ s₂ : Tree Red) (next : Bool → Cmd Red A) where
  -- the test reads both children of the sibling, in whichever order they stand
  nephews_read :
      (d : Side)
      → Held nil s up (branch d s₁ b e s₂)
      → nephews b next s ≡ next (not (red_root s₁) && not (red_root s₂)) s
  nephews_read left held =
      let n = held.at.down.0 in
      nephews_run s b next (red_root s₁) (red_root s₂) (ptr nil s₁) (ptr nil s₂) n.there n.left
        n.right (root_colour b s₁ held.sentinel held.at.down.1)
        (root_colour b s₂ held.sentinel held.at.down.2)
  nephews_read right held =
      let n = held.at.down.0 in
      nephews_run s b next (red_root s₂) (red_root s₁) (ptr nil s₂) (ptr nil s₁) n.there n.left
        n.right (root_colour b s₂ held.sentinel held.at.down.1)
        (root_colour b s₁ held.sentinel held.at.down.2)
      ∙ ap (λ v. next v s) (ground arith)

-- What a round does to the tree in the hole `up`, whose root was of the colour `c`: the extra black is carried
-- by its root, or it is gone.
pub record Outcome (nil : Ptr) (s : Store Red) (up : Hole Red) (old : Tree Red) (c : Red) (n : ℕ)
    (r : Ptr × Bool) (s' : Store Red) : Type 0 where
  pub tree : Tree Red
  pub change : Change nil s up old tree s'
  pub head : red_root tree ≡ c
  pub next :
      ((r ≡ (ptr nil tree, false))
        × (s'.parent (ptr nil tree) ≡ above nil up)
        × Short (weight c + n) tree)
      ⊎ ((r.1 ≡ true) × IsRb (weight c + (1 + n)) tree × (get_rest r.0 s' ≡ ok false s'))

blackened-branch :
    (d : Side) (l : Tree Red) (a : Ptr) (c : Red) (r : Tree Red)
    → blackened (branch d l a c r) ≡ branch d l a false r
blackened-branch left l a c r = refl
blackened-branch right l a c r = refl

-- a black node fewer on both sides of a node, which carries the extra black from then on
Short-branch :
    (d : Side) (n : ℕ) (t : Tree Red) (p : Ptr) (c : Red) (u : Tree Red)
    → red_root t ≡ false
    → IsRb n t
    → IsRb n u
    → Short (weight c + n) (branch d t p c u)
Short-branch d n t p true u black rb rb_u = inl (
  red_root-branch d t p true u,
  subst (IsRb (1 + (0 + n))) (sym (blackened-branch d t p true u))
      (IsRb-branch d n (1 + (0 + n)) t p false u (omega arith) refl refl rb rb_u),
)
Short-branch d n t p false u black rb rb_u =
    inr (red_root-branch d t p false u, IsRb-branch d n (1 + n) t p false u refl refl refl rb rb_u)

module _ {nil : Ptr} (s : Store Red) (up : Hole Red) (d : Side) (t : Tree Red) (p : Ptr) (c : Red)
    (n : ℕ) (b : Ptr) (black : red_root t ≡ false) (rb : IsRb n t) (s₁ s₂ : Tree Red)
    (held : Held nil s up (branch d t p c (branch d s₁ b false s₂))) where
  abbrev pub choice : Bool → Cmd Red (Ptr × Bool)
  choice both =
      if both
      then (do set_rest b true; pure (p, false))
      else (do last ← turn_out d p b; close d (ptr nil t) p last)

  pub lift_black_run :
      (both : Bool)
      → (not (red_root s₁) && not (red_root s₂)) ≡ both
      → lift_black d (ptr nil t) p b s ≡ choice both s
  lift_black_run both e =
      nephews_read s (step (other d) p c t up) b false s₁ s₂ choice d
        (Held-far d p c up t (branch d s₁ b false s₂) held)
      ∙ ap (λ v. choice v s) e

  -- both nephews are black: the sibling becomes red
  pub round_pushed :
      red_root s₁ ≡ false
      → red_root s₂ ≡ false
      → IsRb n s₁
      → IsRb n s₂
      → Returns
          (Outcome nil s up (branch d t p c (branch d s₁ b false s₂)) c n)
          (lift_black d (ptr nil t) p b s)
  round_pushed black₁ black₂ rb₁ rb₂ =
      let old = branch d t p c (branch d s₁ b false s₂) in
      let sib = branch d s₁ b true s₂ in
      subst (Returns (Outcome nil s up old c n))
        (sym (lift_black_run true (rw (black₁, black₂) refl)))
        (bind
          (far-Change d p c up t (branch d s₁ b false s₂) sib (
            paint s (step (other d) p c t up) d s₁ b false true s₂
              (Held-far d p c up t (branch d s₁ b false s₂) held)))
          λ _ s' q.
            let j = joint d p c up t sib q.held in
            returns (record {
              tree = branch d t p c sib;
              change = q;
              head = red_root-branch d t p c sib;
              next = inl (
                ap (λ y. (y, false)) (sym (ptr-branch d nil t p c sib)),
                ap s'.parent (ptr-branch d nil t p c sib) ∙ j.parent,
                Short-branch d n t p c sib black rb
                    (IsRb-branch d n n s₁ b true s₂ (omega arith) black₁ black₂ rb₁ rb₂),
              );
            }))

module _ {nil : Ptr} (s : Store Red) (up : Hole Red) (d : Side) (t : Tree Red) (p : Ptr) (c : Red)
    (n : ℕ) (black : red_root t ≡ false) (rb : IsRb n t) where
  -- the end of a round that leaves the loop
  pub round_closed :
      (s₁ : Tree Red) (q : Ptr) (ol : Tree Red) (o : Ptr) (or : Tree Red)
      → IsRb n s₁
      → IsRb n (node ol o true or)
      → Held nil s up (branch d t p c (branch d s₁ q false (node ol o true or)))
      → Returns
          (Outcome nil s up (branch d t p c (branch d s₁ q false (node ol o true or))) c n)
          (close d (ptr nil t) p q s)
  round_closed s₁ q ol o or rb₁ (m, e, calm_l, calm_r, rb_l, rb_r) held =
      let low = branch d t p false s₁ in
      let s₂ = node ol o false or in
      let new = branch d low q c s₂ in
      mono (close-Change s up d t p c s₁ q ol o or (ptr nil t) held) λ r s' (k, r≡).
        let deep = Held-near d p false (step d q c s₂ up) t s₁ (Held-near d q c up low s₂ k.held) in
        record {
          tree = new;
          change = k;
          head = red_root-branch d low q c s₂;
          next = inr (
            ap (λ z. z.1) r≡,
            IsRb-branch d (1 + n) (weight c + (1 + n)) low q c s₂ refl
                (rw (red_root-branch d t p false s₁) (and_false c)) (and_false c)
                (IsRb-branch d n (1 + n) t p false s₁ refl refl refl rb rb₁)
                (n, refl, refl, refl, IsRb-eq ol (omega arith) rb_l, IsRb-eq or (omega arith) rb_r),
            subst (λ z. get_rest z.0 s' ≡ ok false s') (sym r≡)
                (root_colour (above nil (step d p false s₁ (step d q c s₂ up))) t deep.sentinel
                    deep.at.down
                  ∙ ap (λ z. ok z s') black),
          );
        }
    where
      and_false : (z : Bool) → (z && false) ≡ false
      and_false true = refl
      and_false false = refl

  -- composing a change with a round
  pub Outcome-after :
      {u : Store Red} (old mid : Tree Red) (r : Ptr × Bool) (s' : Store Red)
      → Change nil s up old mid u
      → Outcome nil u up mid c n r s'
      → Outcome nil s up old c n r s'
  Outcome-after old mid r s' q o = record {
    tree = o.tree;
    change = Change-trans q o.change;
    head = o.head;
    next = o.next;
  }
