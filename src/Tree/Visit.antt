-- ===== src/Tree/Visit.antt =====
-- A command run on each node of a list, and `free` as that command.
use dsa.Prelude.{
  ◌≡◌, ◌≢◌, refl, true, false, if◌then◌else◌, ltb, List, [], ◌∷◌, ◌++◌, inl, inr, Bool-cases,
  update, arith,
}
use dsa.Store.Returns.{Returns, returns}
use dsa.Store.{Ptr, Store, Run, ok, fault, out_of_fuel, Cmd, and_then, pure, ◌>>◌, live, free}
use dsa.Tree.Locate.{occurs}
use dsa.Tree.Rep.{Same}

-- `fn` on each of a list of nodes
abbrev pub visit : {T : Type 0} → (Ptr → Cmd T (Unit {0})) → List Ptr → Cmd T (Unit {0})
visit fn [] = pure tt
visit fn (x ∷ xs) = fn x >> visit fn xs

and_then_assoc :
    {T : Type 0} (r : Run T (Unit {0})) (f g u : Cmd T (Unit {0}))
    → ((s : Store T) → u s ≡ and_then (f s) (λ _. g))
    → and_then r (λ _. u) ≡ and_then (and_then r (λ _. f)) (λ _. g)
and_then_assoc (ok a s) f g u e = e s
and_then_assoc fault f g u e = refl
and_then_assoc out_of_fuel f g u e = refl

pub visit-append :
    {T : Type 0} (fn : Ptr → Cmd T (Unit {0})) (xs ys : List Ptr) (s : Store T)
    → visit fn (xs ++ ys) s ≡ and_then (visit fn xs s) (λ _. visit fn ys)
visit-append fn [] ys s = refl
visit-append fn (x ∷ xs) ys s =
    and_then_assoc (fn x s) (visit fn xs) (visit fn ys) (visit fn (xs ++ ys))
      (visit-append fn xs ys)

-- what `bst_preorder` relies on of its callback: it succeeds on a node that is there, and changes
-- no other node
pub record IsVisitor {T : Type 0} (fn : Ptr → Cmd T (Unit {0})) : Type 0 where
  pub runs :
      (a : Ptr) (s : Store T)
      → live s.allocated a ≡ true
      → Returns (λ _ s'. (x : Ptr) → x ≢ a → Same s s' x) (fn a s)

-- `free` may be the callback
pub free-IsVisitor : {T : Type 0} → IsVisitor (free {T = T})
unfolding free
free-IsVisitor = record { runs = λ a s h. rw h (returns (λ x ne. ground arith)) }

freed-twice : {T : Type 0} {s : Store T} → ◌≡◌ {A = Run T (Unit {0})} fault (ok tt s) → ⊥
freed-twice e = cc

pub visit-free :
    {T : Type 0} (xs : List Ptr) (s : Store T) (s' : Store T) (x : Ptr)
    → visit free xs s ≡ ok tt s'
    → s'.allocated x ≡ (if ltb 0 (occurs x xs) then false else s.allocated x)
unfolding free
visit-free [] s s' x e = cc
visit-free (y ∷ ys) s s' x e = elim (Bool-cases (live s.allocated y)) [
  | inl there ↦
      let e' = rw there at e in
      let rest = visit-free ys (record s { allocated = update s.allocated y false }) s' x e' in
      ground (arith, rest)
  | inr gone ↦ absurd (freed-twice (rw gone at e))
]
