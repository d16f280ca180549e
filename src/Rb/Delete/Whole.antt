-- ===== src/Rb/Delete/Whole.antt =====
-- `rb_delete` as a whole.
use dsa.Order.Sorted.{erase-IsSorted}
use dsa.Order.Length.{length-erase}
use dsa.Order.{IsSorted, erase}
use dsa.Prelude.Int.{ℤ}
use dsa.Prelude.{
  ℕ, ◌+◌, ◌≤◌, ◌<◌, ◌≡◌, ◌≢◌, inl, inr, to_nat_self, refl, sym, ◌∙◌, ap, subst, Bool, true, false,
  Bool-cases, ◌&&◌, length, arith,
}
use dsa.Rb.Change.{Change-refl, Change-plug}
use dsa.Rb.Colours.{red_root, red_above, IsRb, IsRbHole, IsRbHole-eq}
use dsa.Rb.Defs.{Red}
use dsa.Rb.Delete.Loop.{lift_loop-Blackened, settled}
use dsa.Rb.Delete.Round.{Short}
use dsa.Rb.Delete.Unlink.{unlink-Unlinked}
use dsa.Rb.Delete.Unlinked.{Unlinked, IsVacant}
use dsa.Rb.Delete.{delete}
use dsa.Tree.Levels.{depth}
use dsa.Rb.State.{IsRbTree, Blackened}
use dsa.Store.Returns.{Returns, returns, bind, mono}
use dsa.Store.{Ptr, Store}
use dsa.Tree.Frame.{Same-trans}
use dsa.Tree.Locate.{locate, join, inorder-plug-join, occurs, occurs-inorder}
use dsa.Tree.Lowest.{count-low}
use dsa.Tree.Rep.{Same}
use dsa.Tree.Shape.{count-plug, size-le-plug, length-inorder}
use dsa.Tree.Walk.{plug-IsAt}
use dsa.Tree.{
  Tree, leaf, node, Hole, top, on_left, on_right, plug, inorder, size, count, count_hole,
}

-- the state after `rb_delete`
pub record Deleted (cmp : Ptr → Ptr → ℤ) (nil : Ptr) (a : Ptr) (s : Store Red) (t : Tree Red)
    (s' : Store Red) : Type 0 where
  pub tree : Tree Red
  pub valid : IsRbTree cmp nil s' tree
  pub order : inorder tree ≡ erase a (inorder t)
  pub allocated : s'.allocated ≡ s.allocated
  pub same : (y : Ptr) → count y t ≡ 0 → y ≢ nil → Same s s' y

depth-le-size : (h : Hole Red) (t : Tree Red) → depth h + size t ≤ size (plug h t)
depth-le-size top t = omega arith
depth-le-size (on_left p c sib up) t = omega (arith, depth-le-size up (node t p c sib))
depth-le-size (on_right sib p c up) t = omega (arith, depth-le-size up (node sib p c t))

count-join : (x : Ptr) (l r : Tree Red) → count x (join l r) ≡ count x l + count x r
count-join x leaf r = omega arith
count-join x (node ll b c lr) leaf = omega arith
count-join x (node ll b c lr) (node rl d e rr) = omega (arith, count-low x rl d e rr)

-- what the colours of a whole tree say at one place in it
record IsRbPlace (h : Hole Red) (t : Tree Red) : Type 0 where
  height : ℕ
  hole : IsRbHole height h
  tree : IsRb height t
  calm : (red_root t && red_above h) ≡ false

plug-IsRbPlace :
    (h : Hole Red) (t : Tree Red) (m : ℕ)
    → IsRb m (plug h t)
    → red_root (plug h t) ≡ false
    → IsRbPlace h t
plug-IsRbPlace top t m rb black = record {
  height = m;
  hole = tt;
  tree = rb;
  calm = ground (arith, black);
}
plug-IsRbPlace (on_left p c sib up) t m rb black =
    let u = plug-IsRbPlace up (node t p c sib) m rb black in
    let (n, e, calm_t, calm_sib, rb_t, rb_sib) = u.tree in
    record {
      height = n;
      hole = (calm_sib, rb_sib, u.calm, IsRbHole-eq up e u.hole);
      tree = rb_t;
      calm = ground (arith, calm_t);
    }
plug-IsRbPlace (on_right sib p c up) t m rb black =
    let u = plug-IsRbPlace up (node sib p c t) m rb black in
    let (n, e, calm_sib, calm_t, rb_sib, rb_t) = u.tree in
    record {
      height = n;
      hole = (calm_sib, rb_sib, u.calm, IsRbHole-eq up e u.hole);
      tree = rb_t;
      calm = ground (arith, calm_t);
    }

IsRb-Short : (n : ℕ) (t : Tree Red) → IsRb n t → Short n t
IsRb-Short n leaf rb = inr (refl, rb)
IsRb-Short n (node l a false r) rb = inr (refl, rb)
IsRb-Short n (node l a true r) (m, e, _, _, rb_l, rb_r) =
    inl (refl, (m, omega arith, refl, refl, rb_l, rb_r))

module _ {nil : Ptr} (s : Store Red) (h : Hole Red) (l : Tree Red) (a : Ptr) (c : Red)
    (r : Tree Red) where
  -- a red node that is gone leaves the colours in order
  red_gone :
      (z : Bool × Ptr) (s' : Store Red)
      → (u : Unlinked nil s h l a c r z s') → IsVacant z.0 u.hole u.tree
      → z.0 ≡ true
      → Blackened nil s' (plug u.hole u.tree) s'
  red_gone z s' u v e =
      let v' = subst (λ b. IsVacant b u.hole u.tree) e v in
      settled s' u.hole u.tree v'.height (plug u.hole u.tree)
        (Change-plug u.hole u.tree u.tree (Change-refl u.held))
        (IsRbHole-eq u.hole (omega arith) v'.hole) v'.tree (rw v'.calm refl)

  -- the nodes that are left
  count-Unlinked :
      (z : Bool × Ptr) (s' : Store Red) (y : Ptr)
      → (u : Unlinked nil s h l a c r z s')
      → count y (plug u.hole u.tree) ≡ count_hole y h + (count y l + count y r)
  count-Unlinked z s' y u =
      sym (occurs-inorder y (plug u.hole u.tree))
      ∙ ap (occurs y) u.order
      ∙ occurs-inorder y (plug h (join l r))
      ∙ omega (arith, count-plug y h (join l r), count-join y l r)

  -- a deeper look at the place that the unlinking leaves: it is not deeper than the tree is large
  depth-Unlinked :
      (z : Bool × Ptr) (s' : Store Red)
      → (u : Unlinked nil s h l a c r z s')
      → inorder (plug h (join l r)) ≡ erase a (inorder (plug h (node l a c r)))
      → depth u.hole ≤ size (plug h (node l a c r))
  depth-Unlinked z s' u e = omega (
    arith,
    depth-le-size u.hole u.tree,
    sym (length-inorder (plug u.hole u.tree)) ∙ ap length (u.order ∙ e),
    length-erase a (inorder (plug h (node l a c r))),
    length-inorder (plug h (node l a c r)),
  )

module _ (cmp : Ptr → Ptr → ℤ) (nil : Ptr) (s : Store Red) (h : Hole Red) (l : Tree Red) (a : Ptr)
    (c : Red) (r : Tree Red) where
  abbrev old : Tree Red
  old = plug h (node l a c r)

  Unlinked-Deleted :
      (z : Bool × Ptr) (s₁ s₂ : Store Red)
      → IsSorted cmp (inorder old)
      → inorder (plug h (join l r)) ≡ erase a (inorder old)
      → (u : Unlinked nil s h l a c r z s₁) → Blackened nil s₁ (plug u.hole u.tree) s₂
      → Deleted cmp nil a s old s₂
  Unlinked-Deleted z s₁ s₂ sorted e u b =
      let order = b.change.order ∙ u.order ∙ e in
      record {
        tree = b.tree;
        valid = record {
          held = b.change.held;
          colours = b.colours;
          sorted = subst (IsSorted cmp) (sym order) (erase-IsSorted cmp a (inorder old) sorted);
        };
        order = order;
        allocated = b.change.allocated ∙ u.allocated;
        same = λ y out ne.
            let k = count-plug y h (node l a c r) in
            Same-trans (u.same y (omega (arith, k, out)) ne)
              (b.change.same y (omega (arith, k, out, count-Unlinked s h l a c r z s₁ y u)) ne);
      }

  delete-place :
      (fuel : ℕ)
      → IsRbTree cmp nil s old
      → size old < fuel
      → Returns (λ _. Deleted cmp nil a s old) (delete nil fuel a s)
  unfolding delete
  delete-place fuel valid enough =
      let at = plug-IsAt nil h (node l a c r) valid.held.at in
      let place =
        plug-IsRbPlace h (node l a c r) valid.colours.height valid.colours.coloured
          valid.colours.root in
      let e = inorder-plug-join h l a c r (omega (arith, at.once a, to_nat_self a)) in
      bind
        (unlink-Unlinked s h a c fuel l r (omega (arith, size-le-plug h (node l a c r), enough))
          (record { at = at; sentinel = valid.held.sentinel }))
        λ z s₁ u.
          let v = u.colours place.height place.hole place.tree place.calm in
          elim (Bool-cases z.0) [
            | inl red ↦ rw red (
                returns
                  (Unlinked-Deleted z s₁ s₁ valid.sorted e u (red_gone s h l a c r z s₁ u v red)))
            | inr black ↦
                let v' = subst (λ b. IsVacant b u.hole u.tree) black v in
                rw (black, u.extra)
                  (bind
                    (lift_loop-Blackened fuel v'.height s₁ u.hole u.tree u.held u.parent v'.hole
                      (IsRb-Short v'.height u.tree v'.tree)
                      (inl (omega (arith, enough, depth-Unlinked s h l a c r z s₁ u e))))
                    λ _ s₂ q. mono q λ _ s₃ b. Unlinked-Deleted z s₁ s₃ valid.sorted e u b)
          ]

-- `rb_delete` of a node of a red-black tree returns without a fault, and leaves a red-black tree with the other
-- nodes in their order
pub delete-Deleted :
    (cmp : Ptr → Ptr → ℤ) (nil a : Ptr) (s : Store Red) (t : Tree Red) (fuel : ℕ)
    → IsRbTree cmp nil s t
    → 0 < count a t
    → size t < fuel
    → Returns (λ _. Deleted cmp nil a s t) (delete nil fuel a s)
delete-Deleted cmp nil a s t fuel valid some enough =
    let p = locate a top t some in
    subst (λ u. Returns (λ _. Deleted cmp nil a s u) (delete nil fuel a s)) p.whole
      (delete-place cmp nil s p.hole p.left a p.tag p.right fuel
        (subst (IsRbTree cmp nil s) (sym p.whole) valid)
        (omega (arith, ap (λ u. size u) p.whole, enough)))
