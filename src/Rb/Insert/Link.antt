-- ===== src/Rb/Insert/Link.antt =====
-- The statements of `rb_insert` that link the new node, red and with no children, into its place.
use dsa.Prelude.Int.{ℤ}
use dsa.Prelude.{
  ◌+◌, ◌≤◌, ◌≡◌, ◌≢◌, ◌==◌, to_nat, to_nat_eq, refl, sym, ◌∙◌, ap, true, false, update, inl, inr,
  Bool-cases, ==→eq, to_nat_ne, ==_refl, ==_false, arith,
}
use dsa.Rb.Change.{Held, IsSentinel-SameBelow}
use dsa.Rb.Defs.{Red}
use dsa.Rb.Insert.Walk.{Points}
use dsa.Rb.Insert.{link}
use dsa.Rb.Rotate.{hook_left_comm, hook_right_comm, update-at}
use dsa.Store.Access.{set_parent-ok, set_left-ok, set_right-ok, set_rest-ok}
use dsa.Store.Returns.{Returns, of_eq}
use dsa.Store.{Ptr, Store, ok, live, ◌>>◌, set_parent, set_left, set_right, set_rest}
use dsa.Tree.Distinct.{ne_of_count_hole}
use dsa.Tree.Frame.{IsRepHole-Same, Same-trans}
use dsa.Tree.Graft.{graft, graft-Same, IsAt-graft}
use dsa.Tree.Hook.{hook, hook_left, hook_right}
use dsa.Tree.Rep.{Same, IsAt}
use dsa.Tree.{Tree, leaf, node, Hole, top, on_left, on_right, above, count, count_hole}

-- the new node, with nothing below it
abbrev pub single : Ptr → Tree Red
single x = node leaf x true leaf

module _ (nil : Ptr) (s : Store Red) (x : Ptr) where
  -- the writes into the node alone
  abbrev fresh : Store Red
  fresh = record s {
    left = update s.left x nil;
    right = update s.right x nil;
    rest = update s.rest x true;
  }

  fresh-Same : (y : Ptr) → y ≢ x → Same s fresh y
  fresh-Same y ne = (
    record { allocated = refl; left = ground arith; right = ground arith; rest = ground arith },
    refl,
  )

  abbrev linked : Hole Red → Store Red
  linked h = record (hook s h x) {
    parent = update s.parent x (above nil h);
    left = update (hook_left h x s.left) x nil;
    right = update (hook_right h x s.right) x nil;
    rest = update s.rest x true;
  }

  linked-graft : (h : Hole Red) → count_hole x h ≡ 0 → linked h ≡ graft nil fresh h (single x)
  linked-graft h out =
      rw (hook_left_comm h x x nil s.left out, hook_right_comm h x x nil s.right out)

  -- the four writes into the node, after the one that leads to it
  abbrev own : Ptr → Store Red → Store Red
  own p u = record u {
    parent = update u.parent x p;
    left = update u.left x nil;
    right = update u.right x nil;
    rest = update u.rest x true;
  }

  own_run :
      (p : Ptr) (u : Store Red)
      → live u.allocated x ≡ true
      → (set_parent x p >> (set_left x nil >> (set_right x nil >> set_rest x true))) u
        ≡ ok tt (own p u)
  own_run p u there =
      let u₁ = record u { parent = update u.parent x p } in
      let u₂ = record u₁ { left = update u.left x nil } in
      let u₃ = record u₂ { right = update u.right x nil } in
      rw (set_parent-ok u x there p) (
        rw (set_left-ok u₁ x there nil)
          (rw (set_right-ok u₂ x there nil) (set_rest-ok u₃ x there true)))

  link_run :
      (h : Hole Red) (ret : ℤ)
      → live s.allocated x ≡ true
      → IsAt nil s h leaf
      → Points ret h
      → link nil x (above nil h) ret s ≡ ok tt (linked h)
  unfolding link
  link_run top ret there at p = rw (==_refl nil) (own_run nil (record s { root = x }) there)
  link_run (on_left a c r up) ret there at p =
      let inner : (a == nil) ≡ false =
        ==_false (λ e. omega (arith, at.absent, to_nat_eq (sym e))) in
      rw (inner, p, set_left-ok s a at.up.0.there x)
        (own_run a (record s { left = update s.left a x }) there)
  link_run (on_right l a c up) ret there at p =
      let inner : (a == nil) ≡ false =
        ==_false (λ e. omega (arith, at.absent, to_nat_eq (sym e))) in
      rw (inner, p, set_right-ok s a at.up.0.there x)
        (own_run a (record s { right = update s.right a x }) there)

  -- the store after the link holds the node in the hole
  pub record Linked (h : Hole Red) (s' : Store Red) : Type 0 where
    pub held : Held nil s' h (single x)
    pub allocated : s'.allocated ≡ s.allocated
    pub same : (y : Ptr) → count_hole y h + to_nat (y == x) ≡ 0 → Same s s' y

  linked_Same :
      (h : Hole Red) (y : Ptr)
      → count_hole y h + to_nat (y == x) ≡ 0
      → Same s (graft nil fresh h (single x)) y
  linked_Same h y out =
      let ne : y ≢ x = λ e. omega (arith, out, to_nat_eq e) in
      Same-trans (fresh-Same y ne) (graft-Same nil fresh h (single x) y (omega (arith, out)) ne)

  graft-Linked :
      (h : Hole Red)
      → live s.allocated x ≡ true
      → x ≢ nil
      → count_hole x h ≡ 0
      → Held nil s h leaf
      → Linked h (graft nil fresh h (single x))
  graft-Linked h there ne out held =
      let at = held.at in
      let once = λ (y : Ptr).
        elim (Bool-cases (y == x)) as (λ _. count_hole y h + count y (single x) ≤ 1) [
          | inl e ↦ ground (arith, e, out, ap (λ z. count_hole z h) (==→eq e))
          | inr e ↦ rw e (omega (arith, at.once y))
        ] in
      record {
        held = record {
          at =
              IsAt-graft nil fresh h (single x) nil (s.parent x)
                (IsRepHole-Same nil h nil at.up (λ y i. fresh-Same y (ne_of_count_hole y x h i out))
                  refl)
                (
                  record {
                    there = there;
                    parent = refl;
                    left = update-at s.left x nil;
                    right = update-at s.right x nil;
                    rest = ground arith;
                  },
                  tt,
                  tt,
                )
                once (omega (arith, at.absent, to_nat_ne (λ e. ne (sym e))));
          sentinel =
              IsSentinel-SameBelow nil s (graft nil fresh h (single x))
                (linked_Same h nil (omega (arith, at.absent, to_nat_ne (λ e. ne (sym e))))).0
                held.sentinel;
        };
        allocated = refl;
        same = linked_Same h;
      }

  pub link-Linked :
      (h : Hole Red) (ret : ℤ)
      → live s.allocated x ≡ true
      → x ≢ nil
      → count_hole x h ≡ 0
      → Held nil s h leaf
      → Points ret h
      → Returns (λ _. Linked h) (link nil x (above nil h) ret s)
  link-Linked h ret there ne out held p =
      of_eq tt (graft nil fresh h (single x))
        (link_run h ret there held.at p ∙ ap (ok tt) (linked-graft h out))
        (graft-Linked h there ne out held)
