-- ===== src/Bst/Main/Ends.antt =====
-- `main` of bst.c ends: on any input it returns, and has freed the nodes it allocated, or exits for a failure.
use dsa.Bst.Main.{Ending, finished, exited, add_loop, remove_loop, final, second, main}
use dsa.Bst.Main.Kept.{IsSession, Kept, add-Kept, remove-Kept, IsSession-update}
use dsa.Bst.Preorder.{preorder-free-Owned}
use dsa.Bst.{Plain}
use dsa.Console.Ending.{Trouble, EndsWell}
use dsa.Console.{
  Reply, got, failed, Conversion, has_failure, has_failure-more, chomp, is_empty, at_nul,
}
use dsa.Numbers.{Values}
use dsa.Prelude.Int.{ℤ, pos, eqb_ℤ, ltb_ℤ}
use dsa.Prelude.{
  ℕ, ◌+◌, ◌<◌, ◌≡◌, inl, inr, refl, Bool, true, false, not, ◌||◌, Option, Option-cases, Bool-cases,
  update, List, [], ◌∷◌, length, arith,
}
use dsa.Store.Returns.{Returns, returns, bind, mono}
use dsa.Store.{Ptr, null, Store, pure}
use dsa.Tree.Owned.{Owned, IsCalloc}
use dsa.Tree.{Tree, leaf, size}

module _ (dummy : Ptr) (left_field right_field : Ptr → Ptr) (fuel : ℕ) (garbage : ℤ)
    (strtol : List ℕ → Conversion ℤ) (calloc : Store Plain → Option Ptr) (honest : IsCalloc calloc)
    (base : Ptr → Bool) where
  -- a tree that has room for a node for each answer that is left
  pub record Ready (val : Values) (rs : List Reply) (s : Store Plain) : Type 0 where
    pub tree : Tree Plain
    pub session : IsSession dummy val s tree
    pub room : size tree + length rs + 1 < fuel
    pub owned : Owned base s tree

  -- what the end of a prompt leaves to the rest of `main`
  pub data After (all : List Reply) : Ending → Store Plain → Type 0 where
    goes_on :
        {val : Values} {rs : List Reply} {s : Store Plain}
        → Ready val rs s
        → (has_failure rs ≡ true → has_failure all ≡ true)
        → After all (finished val rs) s
    exits : {s : Store Plain} → Trouble calloc all s → After all exited s

  After-more :
      (r : Reply) (rs : List Reply) (e : Ending) (s : Store Plain)
      → After rs e s
      → After (r ∷ rs) e s
  After-more r rs _ s (goes_on ready h) = goes_on ready (λ i. has_failure-more r rs (h i))
  After-more r rs _ s (exits (inl h)) = exits (inl (has_failure-more r rs h))
  After-more r rs _ s (exits (inr h)) = exits (inr h)

  Ready-rest :
      (val : Values) (r : Reply) (rs : List Reply) (s : Store Plain)
      → Ready val (r ∷ rs) s
      → Ready val rs s
  Ready-rest val r rs s ready = record {
    tree = ready.tree;
    session = ready.session;
    room = let i = ready.room in omega arith;
    owned = ready.owned;
  }

  -- the prompt ends here
  stop :
      (val : Values) (r : Reply) (rs : List Reply) (s : Store Plain)
      → Ready val (r ∷ rs) s
      → Returns (After (r ∷ rs)) (pure (finished val rs) s)
  stop val r rs s ready =
      returns (goes_on (Ready-rest val r rs s ready) (λ i. has_failure-more r rs i))

  Ready-Kept :
      (after : ℤ → ℕ → ℕ) (val values : Values) (r : Reply) (rs : List Reply) (s s' : Store Plain)
      (ready : Ready val (r ∷ rs) s)
      → Kept dummy val s ready.tree ready.session after values s'
      → Ready values rs s'
  Ready-Kept after val values r rs s s' ready k = record {
    tree = k.tree;
    session = k.session;
    room = let i = ready.room in let j = k.changes.small in omega arith;
    owned = k.changes.owned base ready.owned;
  }

  add_loop-After :
      (val : Values) (rs : List Reply) (s : Store Plain)
      → Ready val rs s
      → Returns
          (After rs)
          (add_loop dummy left_field right_field fuel garbage strtol calloc val rs s)
  unfolding add_loop
  add_loop-After val [] s ready = returns (goes_on ready (λ i. i))
  add_loop-After val (failed true ∷ rs) s ready = stop val (failed true) rs s ready
  add_loop-After val (failed false ∷ rs) s ready = returns (exits (inl refl))
  add_loop-After val (got line eof ∷ rs) s ready =
      let text = chomp line in
      let c = strtol text in
      let r = got line eof in
      let i = ready.room in
      let more = λ (val' : Values) (s' : Store Plain) (ready' : Ready val' rs s').
        mono (add_loop-After val' rs s' ready') (λ e s''. After-more r rs e s'') in
      elim (Bool-cases (is_empty text)) [
        | inl e ↦ rw e (stop val r rs s ready)
        | inr e ↦ elim (Bool-cases (not (eqb_ℤ c.errno (pos 0)) || not (at_nul c.rest))) [
          | inl f ↦ rw (e, f) (more val s (Ready-rest val r rs s ready))
          | inr f ↦ elim (Option-cases (calloc s)) [
            | inl g ↦ rw (e, f, g) (returns (exits (inr g)))
            | inr (p, g) ↦
                rw (e, f, g)
                  (bind
                    (add-Kept dummy val s ready.tree ready.session left_field right_field fuel
                      garbage c.value p (honest s p g) (omega arith))
                    λ _ s' (values, q, k).
                      rw q (more values s' (Ready-Kept _ val values r rs s s' ready k)))
          ]
        ]
      ]

  remove_loop-After :
      (val : Values) (rs : List Reply) (s : Store Plain)
      → Ready val rs s
      → Returns
          (After rs)
          (remove_loop dummy left_field right_field fuel garbage strtol calloc val rs s)
  unfolding remove_loop
  remove_loop-After val [] s ready = returns (goes_on ready (λ i. i))
  remove_loop-After val (failed true ∷ rs) s ready = stop val (failed true) rs s ready
  remove_loop-After val (failed false ∷ rs) s ready = returns (exits (inl refl))
  remove_loop-After val (got line eof ∷ rs) s ready =
      let text = chomp line in
      let c = strtol text in
      let r = got line eof in
      let i = ready.room in
      let more = λ (val' : Values) (s' : Store Plain) (ready' : Ready val' rs s').
        mono (remove_loop-After val' rs s' ready') (λ e s''. After-more r rs e s'') in
      elim (Bool-cases (is_empty text)) [
        | inl e ↦ rw e (stop val r rs s ready)
        | inr e ↦ elim (Bool-cases (ltb_ℤ c.errno (pos 0) || not (at_nul c.rest))) [
          | inl f ↦
              let ready' = Ready-rest val r rs s ready in
              rw (e, f)
                (more (update val dummy c.value) s (record {
                  tree = ready'.tree;
                  session = IsSession-update dummy val s ready'.tree c.value ready'.session;
                  room = ready'.room;
                  owned = ready'.owned;
                }))
          | inr f ↦
              rw (e, f)
                (bind
                  (remove-Kept dummy val s ready.tree ready.session left_field right_field fuel
                    garbage c.value (omega arith))
                  λ values s' k. more values s' (Ready-Kept _ val values r rs s s' ready k))
        ]
      ]

  -- the statements after the second prompt
  final-After :
      (rs all : List Reply) (e : Ending) (s : Store Plain)
      → (has_failure rs ≡ true → has_failure all ≡ true)
      → After rs e s
      → Returns (EndsWell calloc all base) (final fuel e s)
  final-After rs all _ s more (goes_on ready h) =
      let t = ready.tree in
      let i = ready.room in
      bind (preorder-free-Owned fuel base s t ready.session.tree ready.owned (omega arith))
        λ _ s' q. returns (inl (refl, q))
  final-After rs all _ s more (exits (inl h)) = returns (inr (refl, inl (more h)))
  final-After rs all _ s more (exits (inr h)) = returns (inr (refl, inr h))

  second-After :
      (all : List Reply) (e : Ending) (s : Store Plain)
      → After all e s
      → Returns
          (EndsWell calloc all base)
          (second dummy left_field right_field fuel garbage strtol calloc e s)
  second-After all _ s (goes_on {val} {rs} ready h) =
      bind (remove_loop-After val rs s ready) λ e s' a. final-After rs all e s' h a
  second-After all _ s (exits h) = returns (inr (refl, h))

-- `main` of bst.c on any input, with fuel for its lines and a `calloc` that answers with fresh nodes or none, returns without a
-- fault. Its status is 0, and the nodes that are allocated then are those of before; or its status is 1, and a line of the input
-- fails to be read or `calloc` has no node in the memory in which the program exits.
pub main-frees :
    (dummy : Ptr) (left_field right_field : Ptr → Ptr) (fuel : ℕ) (garbage : ℤ)
    (strtol : List ℕ → Conversion ℤ) (calloc : Store Plain → Option Ptr) (s : Store Plain)
    (val : Values) (rs : List Reply)
    → IsCalloc calloc
    → s.allocated dummy ≡ true
    → length rs + 1 < fuel
    → Returns
        (EndsWell calloc rs s.allocated)
        (main dummy left_field right_field fuel garbage strtol calloc val rs s)
unfolding main
main-frees dummy left_field right_field fuel garbage strtol calloc s val rs honest taken enough =
    let base = s.allocated in
    let s₁ : Store Plain = record s { root = null } in
    let ready : Ready dummy left_field right_field fuel garbage strtol calloc honest base val rs
        s₁ =
      record {
        tree = leaf;
        session = record {
          tree = record { up = refl; down = tt; once = λ x. omega arith; absent = refl };
          sorted = tt;
          apart = refl;
          taken = taken;
        };
        room = omega arith;
        owned = λ x. (λ z. refl, λ i. absurd (omega (arith, i)));
      } in
    bind
      (add_loop-After dummy left_field right_field fuel garbage strtol calloc honest base val rs s₁
        ready)
      (second-After dummy left_field right_field fuel garbage strtol calloc honest base rs)
