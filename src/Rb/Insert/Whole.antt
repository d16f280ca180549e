-- ===== src/Rb/Insert/Whole.antt =====
-- `rb_insert` as a whole.
use dsa.Order.Insort.{insort-IsSorted}
use dsa.Order.{IsOrder, IsSorted, insort}
use dsa.Prelude.Int.{ℤ}
use dsa.Prelude.{ℕ, ◌<◌, ◌≡◌, ◌≢◌, to_nat_self, to_nat_ne, refl, sym, ◌∙◌, ap, subst, true, arith}
use dsa.Rb.Defs.{Red}
use dsa.Rb.Insert.Link.{single, link-Linked}
use dsa.Rb.Insert.Loop.{repair_loop-Coloured}
use dsa.Rb.Insert.Walk.{depth-descend, descend-IsRbHole, insert_loop-Arrives}
use dsa.Rb.Insert.{insert_loop, insert}
use dsa.Rb.State.{IsRbTree, blacken_root}
use dsa.Store.Returns.{Returns, bind, mono}
use dsa.Store.{Ptr, Store, live}
use dsa.Tree.Frame.{Same-trans}
use dsa.Tree.Rep.{Same}
use dsa.Tree.Search.{descend, plug-descend, count_hole-descend, inorder-insert_tree, IsAt-descend}
use dsa.Tree.Shape.{count-plug}
use dsa.Tree.{Tree, leaf, top, inorder, size, count}

-- a node that may be put into the tree: it may be written, and is neither in the tree nor the sentinel
pub record IsFree (nil : Ptr) (s : Store Red) (x : Ptr) (t : Tree Red) : Type 0 where
  pub there : live s.allocated x ≡ true
  pub apart : count x t ≡ 0
  pub inner : x ≢ nil

-- the state after `rb_insert`
pub record Inserted (cmp : Ptr → Ptr → ℤ) (nil : Ptr) (x : Ptr) (s : Store Red) (t : Tree Red)
    (s' : Store Red) : Type 0 where
  pub tree : Tree Red
  pub valid : IsRbTree cmp nil s' tree
  pub order : inorder tree ≡ insort cmp x (inorder t)
  pub allocated : s'.allocated ≡ s.allocated
  pub same : (y : Ptr) → count y t ≡ 0 → y ≢ x → y ≢ nil → Same s s' y

module _ (cmp : Ptr → Ptr → ℤ) (nil x : Ptr) (s : Store Red) (t : Tree Red) where
  -- `rb_insert` on a red-black tree returns without a fault, and leaves a red-black tree, in which the node
  -- stands in the order behind every node that is not greater, and all else in its order
  pub insert-Inserted :
      (o : IsOrder cmp) (fuel : ℕ) (garbage : ℤ)
      → IsRbTree cmp nil s t
      → IsFree nil s x t
      → size t < fuel
      → Returns (λ _. Inserted cmp nil x s t) (insert nil cmp fuel garbage x s)
  unfolding insert
  insert-Inserted o fuel garbage valid free enough =
      let at = valid.held.at in
      let place = descend cmp x top t in
      let (ret, run, points) = insert_loop-Arrives nil cmp x s fuel top t garbage enough at tt in
      let walk = ap (λ n. insert_loop nil cmp fuel x n nil garbage s) at.up ∙ run in
      let e = λ (y : Ptr). count_hole-descend cmp x y top t in
      let order =
        ap (λ u. inorder u) (plug-descend cmp x true top t)
        ∙ inorder-insert_tree cmp x o true t valid.sorted in
      let counted = λ (y : Ptr). count-plug y place (single x) in
      let hole =
        descend-IsRbHole cmp x valid.colours.height top t tt valid.colours.coloured
          (rw valid.colours.root refl) in
      rw walk (
        bind
          (link-Linked nil s x place ret free.there free.inner (omega (arith, e x, free.apart))
            (record { at = IsAt-descend cmp x nil top t at; sentinel = valid.held.sentinel })
            points)
          λ _ s₁ l.
            bind
              (repair_loop-Coloured fuel 0 s₁ place leaf x leaf
                (omega (arith, depth-descend cmp x top t)) l.held hole
                (0, refl, refl, refl, refl, refl))
              λ _ s₂ c.
                mono
                  (blacken_root nil s₂ c.tree c.height x c.change.held c.coloured
                    (omega (arith, c.change.nodes x, counted x, to_nat_self x)))
                  λ _ s₃ b.
                    let whole = b.change.order ∙ c.change.order ∙ order in
                    record {
                      tree = b.tree;
                      valid = record {
                        held = b.change.held;
                        colours = b.colours;
                        sorted =
                            subst (IsSorted cmp) (sym whole)
                              (insort-IsSorted cmp o x (inorder t) valid.sorted);
                      };
                      order = whole;
                      allocated = b.change.allocated ∙ c.change.allocated ∙ l.allocated;
                      same = λ y out ne_x ne_nil.
                          let none = to_nat_ne ne_x in
                          Same-trans (l.same y (omega (arith, e y, out, none))) (
                            Same-trans
                              (c.change.same y (omega (arith, counted y, e y, out, none)) ne_nil)
                              (b.change.same y
                                (omega (arith, c.change.nodes y, counted y, e y, out, none))
                                ne_nil));
                    })
