-- ===== src/Rb/Insert/Loop.antt =====
-- The loop of `rb_insert` that restores the colours, from a red node in a coloured hole.
use dsa.Prelude.{ℕ, zero, suc, ◌+◌, ◌<◌, ◌≡◌, ◌⊎◌, inl, inr, refl, ◌∙◌, true, false, ◌&&◌, arith}
use dsa.Rb.Below.{above-step, joint}
use dsa.Rb.Change.{Held, Change, Change-refl, Change-trans, Change-plug}
use dsa.Rb.Colours.{red_root, IsRb, IsRbHole, IsRbHole-parts, IsRbHole-eq, IsRb-plug, red_parent}
use dsa.Rb.Defs.{Red, Side, left, right}
use dsa.Rb.Insert.Repair.{AtRest}
use dsa.Rb.Insert.Round.{repair-Rounded}
use dsa.Rb.Insert.{repair_loop}
use dsa.Rb.Sides.{branch}
use dsa.Rb.Steps.{step, out_near}
use dsa.Store.Access.{get_parent-ok, get_rest-ok}
use dsa.Store.Returns.{Returns, bind, mono, of_eq}
use dsa.Store.{Ptr, Store, ok}
use dsa.Tree.Levels.{depth}
use dsa.Tree.{Tree, leaf, node, Hole, top, on_left, on_right, plug, ptr}

-- the whole tree with its colours in order, but for a root that may be red
pub record Coloured (nil : Ptr) (s : Store Red) (old : Tree Red) (s' : Store Red) : Type 0 where
  pub tree : Tree Red
  pub change : Change nil s top old tree s'
  pub height : ℕ
  pub coloured : IsRb height tree

pub Held-out :
    {nil : Ptr} {s : Store Red} (d : Side) (p : Ptr) (c : Red) (sib : Tree Red) (up : Hole Red)
    (t : Tree Red)
    → Held nil s (step d p c sib up) t
    → Held nil s up (branch d t p c sib)
Held-out {nil} {s} d p c sib up t held = record {
  at = out_near nil s p c sib up t d held.at;
  sentinel = held.sentinel;
}

loop_end : (k : ℕ) (s : Store Red) (x : Ptr) → 0 < k → AtRest s x → repair_loop k x s ≡ ok tt s
unfolding repair_loop
loop_end zero s x some rest = absurd (omega arith)
loop_end (suc k) s x some rest =
    rw (get_parent-ok s x rest.there, get_rest-ok s (s.parent x) rest.above, rest.black) refl

abbrev Loops : Ptr → ℕ → Type 0
Loops nil k =
    (n : ℕ) (s : Store Red) (h : Hole Red) (l : Tree Red) (x : Ptr) (r : Tree Red)
    → depth h < k
    → Held nil s h (node l x true r)
    → IsRbHole n h
    → IsRb n (node l x true r)
    → Returns (λ _. Coloured nil s (plug h (node l x true r))) (repair_loop k x s)

module _ {nil : Ptr} where
  -- at a black parent, or at the root, the loop has nothing to do
  done_black :
      (k n : ℕ) (s : Store Red) (h : Hole Red) (t : Tree Red) (x : Ptr)
      → 0 < k
      → Held nil s h t
      → IsRbHole n h
      → IsRb n t
      → (red_root t && red_parent h) ≡ false
      → AtRest s x
      → Returns (λ _. Coloured nil s (plug h t)) (repair_loop k x s)
  done_black k n s h t x some held hole rb calm rest =
      let (m, rb_all) = IsRb-plug n h t hole rb calm in
      of_eq tt s (loop_end k s x some rest) (record {
        tree = plug h t;
        change = Change-plug h t t (Change-refl held);
        height = m;
        coloured = rb_all;
      })

  extend :
      {s s' s'' : Store Red} (up : Hole Red) (old t : Tree Red)
      → Change nil s up old t s'
      → Coloured nil s' (plug up t) s''
      → Coloured nil s (plug up old) s''
  extend up old t c q = record {
    tree = q.tree;
    change = Change-trans (Change-plug up old t c) q.change;
    height = q.height;
    coloured = q.coloured;
  }

  -- what follows a round
  after_round :
      (k n : ℕ) (s s' : Store Red) (up : Hole Red) (old t : Tree Red) (y : Ptr)
      → Loops nil k
      → depth up < k
      → IsRbHole (1 + n) up
      → Change nil s up old t s'
      → IsRb (1 + n) t
      → ((red_root t ≡ true) × (y ≡ ptr nil t)) ⊎ ((red_root t ≡ false) × AtRest s' y)
      → Returns (λ _. Coloured nil s (plug up old)) (repair_loop k y s')
  after_round k n s s' up old leaf y loops fuel hole c rb (inl (red, e)) = cc
  after_round k n s s' up old (node l x false r) y loops fuel hole c rb (inl (red, e)) = cc
  after_round k n s s' up old (node l x true r) y loops fuel hole c rb (inl (red, e)) = rw e (
      mono (loops (1 + n) s' up l x r fuel c.held hole rb)
        λ _ s'' q. extend up old (node l x true r) c q)
  after_round k n s s' up old t y loops fuel hole c rb (inr (black, rest)) =
      mono (done_black k (1 + n) s' up t y (omega arith) c.held hole rb (rw black refl) rest)
        λ _ s'' q. extend up old t c q

  -- a red parent has a black parent, and a round is run
  loop_red :
      (k n : ℕ) (s : Store Red) (d e : Side) (up : Hole Red) (l : Tree Red) (x : Ptr) (r : Tree Red)
      (p : Ptr) (sib : Tree Red) (g : Ptr) (uncle : Tree Red)
      → Loops nil k
      → depth up < k
      → Held nil s (step e p true sib (step d g false uncle up)) (node l x true r)
      → IsRbHole n (step e p true sib (step d g false uncle up))
      → IsRb n (node l x true r)
      → Returns
          (λ _.
            Coloured nil s
              (plug up (branch d (branch e (node l x true r) p true sib) g false uncle)))
          (repair_loop (suc k) x s)
  unfolding repair_loop
  loop_red k n s d e up l x r p sib g uncle loops fuel held hole rb =
      let w = branch e (node l x true r) p true sib in
      let h₁ = Held-out e p true sib (step d g false uncle up) (node l x true r) held in
      let h₂ = Held-out d g false uncle up w h₁ in
      let j = joint e p true (step d g false uncle up) (node l x true r) sib h₁ in
      let n₁ = held.at.down.0 in
      let low = IsRbHole-parts e n p true sib (step d g false uncle up) hole in
      let high =
        IsRbHole-parts d n g false uncle up
          (IsRbHole-eq (step d g false uncle up) (omega arith) low.rest) in
      rw
        (
          get_parent-ok s x n₁.there,
          n₁.parent,
          above-step e nil p true sib (step d g false uncle up),
          get_rest-ok s p j.there,
          j.rest,
        )
        (bind (repair-Rounded s up n p g sib l x r d e uncle h₂ hole rb) λ y s' q.
          after_round k n s s' up (branch d w g false uncle) q.tree y loops fuel high.rest q.change
            q.coloured q.next)

  AtRest-root :
      (s : Store Red) (l : Tree Red) (x : Ptr) (c : Red) (r : Tree Red)
      → Held nil s top (node l x c r)
      → AtRest s x
  AtRest-root s l x c r held =
      let n = held.at.down.0 in
      let z = held.sentinel in
      record { there = n.there; above = rw n.parent z.there; black = rw n.parent z.black }

  AtRest-black :
      (s : Store Red) (d : Side) (p : Ptr) (sib : Tree Red) (up : Hole Red) (l : Tree Red) (x : Ptr)
      (c : Red) (r : Tree Red)
      → Held nil s (step d p false sib up) (node l x c r)
      → AtRest s x
  AtRest-black s d p sib up l x c r held =
      let n = held.at.down.0 in
      let j =
        joint d p false up (node l x c r) sib (Held-out d p false sib up (node l x c r) held) in
      let e : s.parent x ≡ p = n.parent ∙ above-step d nil p false sib up in
      record { there = n.there; above = rw e j.there; black = rw e j.rest }

  pub repair_loop-Coloured : (k : ℕ) → Loops nil k
  repair_loop-Coloured zero n s h l x r fuel held hole rb = absurd (omega arith)
  repair_loop-Coloured (suc k) n s top l x r fuel held hole rb =
      done_black (suc k) n s top (node l x true r) x (omega arith) held hole rb refl
        (AtRest-root s l x true r held)
  repair_loop-Coloured (suc k) n s (on_left p false sib up) l x r fuel held hole rb =
      done_black (suc k) n s (on_left p false sib up) (node l x true r) x (omega arith) held hole rb
        refl (AtRest-black s left p sib up l x true r held)
  repair_loop-Coloured (suc k) n s (on_right sib p false up) l x r fuel held hole rb =
      done_black (suc k) n s (on_right sib p false up) (node l x true r) x (omega arith) held hole
        rb refl (AtRest-black s right p sib up l x true r held)
  repair_loop-Coloured (suc k) n s (on_left p true sib top) l x r fuel held hole rb = cc
  repair_loop-Coloured (suc k) n s (on_right sib p true top) l x r fuel held hole rb = cc
  repair_loop-Coloured (suc k) n s (on_left p true sib (on_left g true uncle up)) l x r fuel held
        hole rb =
      cc
  repair_loop-Coloured (suc k) n s (on_left p true sib (on_right uncle g true up)) l x r fuel held
        hole rb =
      cc
  repair_loop-Coloured (suc k) n s (on_right sib p true (on_left g true uncle up)) l x r fuel held
        hole rb =
      cc
  repair_loop-Coloured (suc k) n s (on_right sib p true (on_right uncle g true up)) l x r fuel held
        hole rb =
      cc
  repair_loop-Coloured (suc k) n s (on_left p true sib (on_left g false uncle up)) l x r fuel held
        hole rb =
      loop_red k n s left left up l x r p sib g uncle (repair_loop-Coloured k) (omega arith) held
        hole rb
  repair_loop-Coloured (suc k) n s (on_left p true sib (on_right uncle g false up)) l x r fuel held
        hole rb =
      loop_red k n s right left up l x r p sib g uncle (repair_loop-Coloured k) (omega arith) held
        hole rb
  repair_loop-Coloured (suc k) n s (on_right sib p true (on_left g false uncle up)) l x r fuel held
        hole rb =
      loop_red k n s left right up l x r p sib g uncle (repair_loop-Coloured k) (omega arith) held
        hole rb
  repair_loop-Coloured (suc k) n s (on_right sib p true (on_right uncle g false up)) l x r fuel held
        hole rb =
      loop_red k n s right right up l x r p sib g uncle (repair_loop-Coloured k) (omega arith) held
        hole rb
