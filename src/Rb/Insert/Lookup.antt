-- ===== src/Rb/Insert/Lookup.antt =====
-- `rb_insert` and then `rb_find` with the node that was put in.
use dsa.Order.Length.{length-insort}
use dsa.Order.{IsOrder, less, equal, insort, Misses}
use dsa.Prelude.Int.{ℤ}
use dsa.Prelude.{
  ℕ, ◌+◌, ◌<◌, ◌≡◌, sym, ◌∙◌, ap, subst, inl, inr, true, false, Bool-cases, List, [], ◌∷◌, length,
  if◌then◌else◌, arith,
}
use dsa.Rb.Defs.{Red, find}
use dsa.Rb.Find.{find-Found}
use dsa.Rb.Insert.Whole.{IsFree, Inserted, insert-Inserted}
use dsa.Rb.Insert.{insert}
use dsa.Rb.State.{IsRbTree}
use dsa.Store.Returns.{Returns, bind, of_eq}
use dsa.Store.{Ptr, Store, ◌>>◌}
use dsa.Tree.Shape.{length-inorder}
use dsa.Tree.{Tree, inorder, size}

module _ (cmp : Ptr → Ptr → ℤ) (x : Ptr) where
  equal_refl : (o : IsOrder cmp) → equal cmp x x ≡ true
  equal_refl o =
      let irrefl : less cmp x x ≡ false = elim (Bool-cases (less cmp x x)) [
        | inl e ↦ o.less_asymm x x e
        | inr e ↦ e
      ] in
      o.equal_of x x irrefl irrefl

  -- a list with `x` put in has an equal element
  insort-Misses :
      (xs : List Ptr) → equal cmp x x ≡ true → Misses cmp x (insort cmp x xs) → true ≡ false
  insort-Misses [] e (f, _) = sym e ∙ f
  insort-Misses (y ∷ ys) e m = elim (Bool-cases (less cmp x y)) [
    | inl l ↦
        let k = subst (λ b. Misses cmp x (if b then x ∷ y ∷ ys else y ∷ insort cmp x ys)) l m in
        sym e ∙ k.0
    | inr l ↦
        let k = subst (λ b. Misses cmp x (if b then x ∷ y ∷ ys else y ∷ insort cmp x ys)) l m in
        insort-Misses ys e k.1
  ]

  -- after `rb_insert` of a free node into a red-black tree, `rb_find` with it returns, with the tree as `rb_insert`
  -- left it, a node that compares equal
  pub insert-find :
      (nil : Ptr) (s : Store Red) (t : Tree Red) (o : IsOrder cmp) (fuel : ℕ) (garbage : ℤ)
      → IsRbTree cmp nil s t
      → IsFree nil s x t
      → size t + 1 < fuel
      → Returns
          (λ p s'. Inserted cmp nil x s t s' × (equal cmp x p ≡ true))
          ((insert nil cmp fuel garbage x >> find nil cmp fuel x) s)
  insert-find nil s t o fuel garbage valid free enough =
      bind (insert-Inserted cmp nil x s t o fuel garbage valid free (omega arith)) λ _ s' i.
        let larger =
          sym (length-inorder i.tree)
          ∙ ap length i.order
          ∙ length-insort cmp x (inorder t)
          ∙ ap (λ n. n + 1) (length-inorder t) in
        let (p, run, finds) =
          find-Found nil cmp x s' o fuel i.tree i.valid.held.at i.valid.sorted
            (omega (arith, larger)) in
        of_eq p s' run (
          i,
          elim finds [
            | inl (_, e) ↦ e
            | inr (_, m) ↦
                let no =
                  insort-Misses (inorder t) (equal_refl o) (subst (Misses cmp x) i.order m) in
                cc
          ],
        )
