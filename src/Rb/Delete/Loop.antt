-- ===== src/Rb/Delete/Loop.antt =====
-- The loop of `rb_delete` that moves the extra black up, and the write after it.
use dsa.Prelude.{
  ℕ, zero, suc, ◌+◌, ◌<◌, ◌≡◌, ◌==◌, ==_false, ==_true, ==_refl, to_nat, to_nat_eq, to_nat_self,
  ◌⊎◌, inl, inr, refl, sym, ◌∙◌, ap, subst, true, false, ◌&&◌, Bool-cases, if◌then◌else◌, update,
  arith,
}
use dsa.Rb.Below.{joint, root_live, root_colour}
use dsa.Rb.Change.{Held, Change, Change-refl, Change-trans, Change-plug, paint}
use dsa.Rb.Colours.{
  red_root, red_above, red_parent-above, weight, IsRb, IsRbHole, IsRb-plug, IsRbHole-parts,
}
use dsa.Rb.Defs.{Red, Side, left, right}
use dsa.Rb.Delete.Round.{Short}
use dsa.Rb.Delete.Sibling.{Lifted, lift_side-Lifted}
use dsa.Rb.Delete.{lift, lift_loop}
use dsa.Tree.Levels.{depth}
use dsa.Rb.Insert.Loop.{Held-out}
use dsa.Rb.State.{Blackened}
use dsa.Rb.Replace.{root-in_hole}
use dsa.Rb.Sides.{branch}
use dsa.Rb.Steps.{step}
use dsa.Store.Access.{get_parent-ok, get_left-ok, get_rest-ok, set_rest-ok}
use dsa.Store.Returns.{Returns, returns, bind, mono, of_eq}
use dsa.Store.{Ptr, Store, ok, fault, live, get_rest, set_rest}
use dsa.Tree.Distinct.{ptr-ne}
use dsa.Tree.Rep.{IsRepHole}
use dsa.Tree.{Tree, leaf, node, Hole, top, on_left, on_right, ptr, above, plug, count_hole}
use mathlib.Core.Path.{fun_ext}

-- a write of the colour that is there
set_rest-get_rest :
    (s : Store Red) (p : Ptr) (c : Red) → get_rest p s ≡ ok c s → set_rest p c s ≡ ok tt s
unfolding get_rest set_rest
set_rest-get_rest s p c e = elim (Bool-cases (live s.allocated p)) [
  | inl there ↦
      let same : s.rest p ≡ c = let k = sym (get_rest-ok s p there) ∙ e in cc in
      let whole : update s.rest p c ≡ s.rest = fun_ext λ x. ground (arith, same) in
      set_rest-ok s p there c ∙ ap (λ f. ok tt (record s { rest = f })) whole
  | inr dead ↦ let k = subst (λ b. (if b then ok (s.rest p) s else fault) ≡ ok c s) dead e in cc
]

-- the root of the whole tree is a node of a hole that is not at the root
root-count_hole :
    (nil : Ptr) (s : Store Red) (q : Ptr) (d : Side) (p : Ptr) (c : Red) (sib : Tree Red)
    (up : Hole Red)
    → IsRepHole nil s q (step d p c sib up)
    → 0 < count_hole s.root (step d p c sib up)
root-count_hole nil s q left p c sib up rep = elim (root-in_hole nil s up p rep.2) [
  | inl e ↦ omega (arith, ap (λ y. to_nat (y == p)) e, to_nat_self p)
  | inr i ↦ omega arith
]
root-count_hole nil s q right p c sib up rep = elim (root-in_hole nil s up p rep.2) [
  | inl e ↦ omega (arith, ap (λ y. to_nat (y == p)) e, to_nat_self p)
  | inr i ↦ omega arith
]

red_root-plug :
    (h : Hole Red) (t : Tree Red) (n : ℕ)
    → IsRbHole n h
    → (red_root t && red_above h) ≡ false
    → red_root (plug h t) ≡ false
red_root-plug top t n hole calm = ground (arith, calm)
red_root-plug (on_left p c sib up) t n (_, _, calm', rest) calm =
    red_root-plug up (node t p c sib) (weight c + n) rest calm'
red_root-plug (on_right sib p c up) t n (_, _, calm', rest) calm =
    red_root-plug up (node sib p c t) (weight c + n) rest calm'

-- the loop and the write after it, from a carrier that is short of a black node
abbrev pub Lightens : Ptr → ℕ → Type 0
Lightens nil k =
    (n : ℕ) (s : Store Red) (h : Hole Red) (t : Tree Red)
    → Held nil s h t
    → s.parent (ptr nil t) ≡ above nil h
    → IsRbHole (1 + n) h
    → Short n t
    → (depth h < k) ⊎ ((red_root t ≡ true) × (0 < k))
    → Returns (λ e s'. Returns (λ _. Blackened nil s (plug h t)) (set_rest e false s'))
        (lift_loop k (ptr nil t) s)

module _ {nil : Ptr} where
  -- a tree whose colours are in order already
  pub settled :
      (s : Store Red) (h : Hole Red) (t : Tree Red) (n : ℕ) (old : Tree Red) {s' : Store Red}
      → Change nil s top old (plug h t) s'
      → IsRbHole n h
      → IsRb n t
      → (red_root t && red_above h) ≡ false
      → Blackened nil s old s'
  settled s h t n old ch hole rb calm =
      let (m, rb_all) = IsRb-plug n h t hole rb (red_parent-above (red_root t) h calm) in
      record {
        tree = plug h t;
        change = ch;
        colours = record { root = red_root-plug h t n hole calm; height = m; coloured = rb_all };
      }

  -- the write after the loop, at a red carrier, and at the root
  finish_red :
      (s : Store Red) (h : Hole Red) (l : Tree Red) (x : Ptr) (r : Tree Red) (n : ℕ)
      → Held nil s h (node l x true r)
      → IsRbHole (1 + n) h
      → Short n (node l x true r)
      → Returns (λ _. Blackened nil s (plug h (node l x true r))) (set_rest x false s)
  finish_red s h l x r n held hole (inl (_, rb)) =
      mono (paint s h left l x true false r held) λ _ s' q.
        settled s h (node l x false r) (1 + n) (plug h (node l x true r))
          (Change-plug h (node l x true r) (node l x false r) q) hole rb refl
  finish_red s h l x r n held hole (inr (bad, _)) = cc

  finish_top :
      (s : Store Red) (t : Tree Red) (n : ℕ)
      → Held nil s top t
      → Short n t
      → Returns (λ _. Blackened nil s t) (set_rest (ptr nil t) false s)
  finish_top s leaf n held short =
      of_eq tt s (set_rest-get_rest s nil false (root_colour nil leaf held.sentinel tt)) (record {
        tree = leaf;
        change = Change-refl held;
        colours = record { root = refl; height = 0; coloured = refl };
      })
  finish_top s (node l x true r) n held short = finish_red s top l x r n held tt short
  finish_top s (node l x false r) n held (inl (bad, _)) = cc
  finish_top s (node l x false r) n held (inr (_, rb)) =
      mono (paint s top left l x false false r held)
        λ _ s' q. settled s top (node l x false r) n (node l x false r) q tt rb refl

  lift-Lifted :
      (s : Store Red) (d : Side) (p : Ptr) (c : Red) (sib : Tree Red) (up : Hole Red) (t : Tree Red)
      (n : ℕ)
      → Held nil s (step d p c sib up) t
      → s.parent (ptr nil t) ≡ p
      → IsRbHole (1 + n) (step d p c sib up)
      → red_root t ≡ false
      → IsRb n t
      → Returns (Lifted nil s (plug up (branch d t p c sib)) (1 + depth up)) (lift (ptr nil t) s)
  unfolding lift
  lift-Lifted s left p c sib up t n held parent hole black rb =
      let w = Held-out left p c sib up t held in
      let j = joint left p c up t sib w in
      rw
        (
          get_parent-ok s (ptr nil t) (root_live p t held.sentinel held.at.down),
          parent,
          get_left-ok s p j.there,
          j.near,
          ==_refl (ptr nil t),
        )
        (lift_side-Lifted s up t p n left c sib black rb w
          (IsRbHole-parts left (1 + n) p c sib up hole))
  lift-Lifted s right p c leaf up t n held parent (_, low, _, _) black rb =
      absurd (omega (arith, low))
  lift-Lifted s right p c (node sl x e sr) up t n held parent hole black rb =
      let sib = node sl x e sr in
      let w = Held-out right p c sib up t held in
      let j = joint right p c up t sib w in
      let other_child = ==_false (
        ptr-ne nil x t (λ z. omega (arith, held.at.absent, to_nat_eq (sym z)))
          (omega (arith, held.at.once x, to_nat_self x))) in
      rw
        (
          get_parent-ok s (ptr nil t) (root_live p t held.sentinel held.at.down),
          parent,
          get_left-ok s p j.there,
          j.far,
          other_child,
        )
        (lift_side-Lifted s up t p n right c sib black rb w
          (IsRbHole-parts right (1 + n) p c sib up hole))

  extend :
      {s s' s'' : Store Red} (old t : Tree Red)
      → Change nil s top old t s'
      → Blackened nil s' t s''
      → Blackened nil s old s''
  extend old t c b = record { tree = b.tree; change = Change-trans c b.change; colours = b.colours }

  not_root :
      (s : Store Red) (d : Side) (p : Ptr) (c : Red) (sib : Tree Red) (up : Hole Red) (t : Tree Red)
      → Held nil s (step d p c sib up) t
      → (ptr nil t == s.root) ≡ false
  not_root s d p c sib up t held =
      let i = root-count_hole nil s (ptr nil t) d p c sib up held.at.up in
      ==_false (
        ptr-ne nil s.root t
          (λ e. omega (arith, i, held.at.absent, ap (λ y. count_hole y (step d p c sib up)) e))
          (omega (arith, i, held.at.once s.root)))

  loop_black :
      (k n : ℕ) (s : Store Red) (d : Side) (p : Ptr) (c : Red) (sib : Tree Red) (up : Hole Red)
      (t : Tree Red)
      → Lightens nil k
      → Held nil s (step d p c sib up) t
      → s.parent (ptr nil t) ≡ p
      → IsRbHole (1 + n) (step d p c sib up)
      → red_root t ≡ false
      → IsRb n t
      → depth up < k
      → Returns
          (λ e s'.
            Returns (λ _. Blackened nil s (plug up (branch d t p c sib))) (set_rest e false s'))
          (lift_loop (suc k) (ptr nil t) s)
  unfolding lift_loop
  loop_black k n s d p c sib up t loops held parent hole black rb fuel =
      let old = plug up (branch d t p c sib) in
      rw
        (
          not_root s d p c sib up t held,
          root_colour (above nil (step d p c sib up)) t held.sentinel held.at.down,
          black,
        )
        (bind (lift-Lifted s d p c sib up t n held parent hole black rb) λ r s' q. elim q.next [
          | inl (r≡, parent', hole', short, less) ↦ rw r≡ (
              mono
                (loops q.height s' q.hole q.tree q.held parent' hole' short
                  (elim less [ inl l ↦ inl (omega arith) | inr e ↦ inr (e, omega arith) ]))
                λ e s'' z. mono z λ _ s₃ b. extend old (plug q.hole q.tree) q.change b)
          | inr (left_loop, hole', rb', calm, read) ↦ rw left_loop (
              returns (
                of_eq tt s' (set_rest-get_rest s' r.0 false read)
                  (settled s q.hole q.tree q.height old q.change hole' rb' calm)))
        ])

  loop_at :
      (k n : ℕ) (s : Store Red) (d : Side) (p : Ptr) (c : Red) (sib : Tree Red) (up : Hole Red)
      (t : Tree Red)
      → Lightens nil k
      → Held nil s (step d p c sib up) t
      → s.parent (ptr nil t) ≡ p
      → IsRbHole (1 + n) (step d p c sib up)
      → Short n t
      → red_root t ≡ false
      → (1 + depth up < suc k) ⊎ ((red_root t ≡ true) × (0 < suc k))
      → Returns
          (λ e s'.
            Returns (λ _. Blackened nil s (plug up (branch d t p c sib))) (set_rest e false s'))
          (lift_loop (suc k) (ptr nil t) s)
  loop_at k n s d p c sib up t loops held parent hole (inl (red, _)) black fuel = cc
  loop_at k n s d p c sib up t loops held parent hole (inr (_, rb)) black (inl l) =
      loop_black k n s d p c sib up t loops held parent hole black rb (omega arith)
  loop_at k n s d p c sib up t loops held parent hole (inr (_, rb)) black (inr (red, _)) = cc

  pub lift_loop-Blackened : (k : ℕ) → Lightens nil k
  unfolding lift_loop
  lift_loop-Blackened zero n s h t held parent hole short (inl fuel) = absurd (omega arith)
  lift_loop-Blackened zero n s h t held parent hole short (inr (_, fuel)) = absurd (omega arith)
  lift_loop-Blackened (suc k) n s top t held parent hole short fuel =
      rw (==_true (sym held.at.up)) (returns (finish_top s t n held short))
  lift_loop-Blackened (suc k) n s (on_left p c sib up) (node l x true r) held parent hole short
        fuel =
      rw
        (
          not_root s left p c sib up (node l x true r) held,
          get_rest-ok s x held.at.down.0.there,
          held.at.down.0.rest,
        )
        (returns (finish_red s (on_left p c sib up) l x r n held hole short))
  lift_loop-Blackened (suc k) n s (on_right sib p c up) (node l x true r) held parent hole short
        fuel =
      rw
        (
          not_root s right p c sib up (node l x true r) held,
          get_rest-ok s x held.at.down.0.there,
          held.at.down.0.rest,
        )
        (returns (finish_red s (on_right sib p c up) l x r n held hole short))
  lift_loop-Blackened (suc k) n s (on_left p c sib up) leaf held parent hole short fuel =
      loop_at k n s left p c sib up leaf (lift_loop-Blackened k) held parent hole short refl fuel
  lift_loop-Blackened (suc k) n s (on_right sib p c up) leaf held parent hole short fuel =
      loop_at k n s right p c sib up leaf (lift_loop-Blackened k) held parent hole short refl fuel
  lift_loop-Blackened (suc k) n s (on_left p c sib up) (node l x false r) held parent hole short
        fuel =
      loop_at k n s left p c sib up (node l x false r) (lift_loop-Blackened k) held parent hole
        short refl fuel
  lift_loop-Blackened (suc k) n s (on_right sib p c up) (node l x false r) held parent hole short
        fuel =
      loop_at k n s right p c sib up (node l x false r) (lift_loop-Blackened k) held parent hole
        short refl fuel
