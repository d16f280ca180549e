-- ===== src/Tree/Graft.antt =====
-- A tree put into a hole: the hole's pointer leads to it, and its root's parent is the node above.
use dsa.Prelude.{◌+◌, ◌≤◌, ◌≡◌, ◌≢◌, refl, inl, inr, ap, update, arith}
use dsa.Store.{Ptr, Store}
use dsa.Tree.Distinct.{ptr-count, ne_of_count_hole}
use dsa.Tree.Frame.{IsRep-Same, IsRepHole-Same, IsRep-reparent, Same-trans, set_parent-Same}
use dsa.Tree.Hook.{hook, hook-Same, IsRepHole-hook}
use dsa.Tree.Rep.{Same, IsRep, IsRepHole, IsAt}
use dsa.Tree.{Tree, leaf, Hole, ptr, above, count, count_hole}

module _ {T : Type 0} (nil : Ptr) (s : Store T) (h : Hole T) where
  abbrev pub graft : Tree T → Store T
  graft w = record (hook s h (ptr nil w)) { parent = update s.parent (ptr nil w) (above nil h) }

  pub graft-Same :
      (w : Tree T) (x : Ptr) → count_hole x h + count x w ≡ 0 → x ≢ ptr nil w → Same s (graft w) x
  graft-Same w x out ne =
      Same-trans (hook-Same s h (ptr nil w) x (omega arith))
        (set_parent-Same (hook s h (ptr nil w)) (ptr nil w) (above nil h) x ne)

  -- an empty hole needs no parent
  pub IsAt-hook :
      (q : Ptr)
      → IsRepHole nil s q h
      → ((x : Ptr) → count_hole x h ≤ 1)
      → count_hole nil h ≡ 0
      → IsAt nil (hook s h nil) h leaf
  IsAt-hook q up once absent = record {
    up = IsRepHole-hook nil s h q nil up once;
    down = tt;
    once = λ x. omega (arith, once x);
    absent = omega (arith, absent);
  }

  pub IsAt-graft :
      (w : Tree T) (q p : Ptr)
      → IsRepHole nil s q h
      → IsRep nil s p w
      → ((x : Ptr) → count_hole x h + count x w ≤ 1)
      → count_hole nil h + count nil w ≡ 0
      → IsAt nil (graft w) h w
  IsAt-graft w q p up d once absent =
      let b = ptr nil w in
      let o : count_hole b h ≡ 0 = elim (ptr-count nil w) [
        | inl e ↦ omega (arith, ap (λ x. count_hole x h) e, absent)
        | inr i ↦ omega (arith, once b, i)
      ] in
      let spare = set_parent-Same (hook s h b) b (above nil h) in
      record {
        up =
            IsRepHole-Same nil h b (IsRepHole-hook nil s h q b up (λ x. omega (arith, once x)))
              (λ x i. spare x (ne_of_count_hole x b h i o)) refl;
        down =
            IsRep-reparent nil w p (above nil h)
              (IsRep-Same nil w p d (λ x i. hook-Same s h b x (omega (arith, once x))))
              (λ x. omega (arith, once x))
              (λ x i. record { allocated = refl; left = refl; right = refl; rest = refl })
              (λ x i ne. (spare x ne).1) (λ i. ground arith);
        once = once;
        absent = absent;
      }
