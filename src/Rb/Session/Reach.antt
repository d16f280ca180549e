-- ===== src/Rb/Session/Reach.antt =====
-- The loop of `main` as steps: the states that it reaches by commands from `rb_init`.
use dsa.Prelude.Int.{ℤ}
use dsa.Prelude.{ℕ, ◌+◌, ◌<◌, ◌≤◌, ◌≡◌, refl, sym, ◌∙◌, ap, subst, true, some, arith}
use dsa.Rb.Defs.{Red, init, preorder}
use dsa.Rb.Preorder.{preorder-frees-Owned}
use dsa.Rb.Sentinel.{init-IsTree, init-allocated}
use dsa.Rb.Session.Kept.{IsSession, Kept, command-Kept}
use dsa.Tree.Owned.{Owned, IsFresh}
use dsa.Numbers.{Values, holds}
use dsa.Rb.Session.{Command, insert_number, delete_number, print, command, bag_step}
use dsa.Store.Returns.{Returns, at_ok}
use dsa.Store.{Ptr, Store, ok, live, free}
use dsa.Tree.{Tree, leaf, inorder, size}

-- `s₀` is the memory before `rb_init`, and `started` the state after it; a command leads on where `calloc` answers with a fresh node. `n`
-- counts the commands, and the bag is what they make of the empty one.
pub data Reaches (s₀ : Store Red) (nil dummy : Ptr) (left_field right_field : Ptr → Ptr) (fuel : ℕ)
    (garbage : ℤ) : Values → Store Red → ℕ → (ℤ → ℕ) → Type 0 where
  started :
      {s : Store Red} (val : Values)
      → live s₀.allocated nil ≡ true
      → s₀.allocated dummy ≡ true
      → init nil s₀ ≡ ok tt s
      → Reaches s₀ nil dummy left_field right_field fuel garbage val s 0 (λ w. 0)
  commanded :
      {val val' : Values} {s s' : Store Red} {n : ℕ} {bag : ℤ → ℕ} (c : Command) (p : Ptr)
      → Reaches s₀ nil dummy left_field right_field fuel garbage val s n bag
      → IsFresh s p
      → n < fuel
      → command nil dummy left_field right_field fuel garbage c (some p) val s ≡ ok (some val') s'
      → Reaches s₀ nil dummy left_field right_field fuel garbage val' s' (n + 1) (bag_step c bag)

-- the tree in a state, with its numbers
pub record Reached (s₀ : Store Red) (nil dummy : Ptr) (val : Values) (s : Store Red) (n : ℕ)
    (bag : ℤ → ℕ) : Type 0 where
  pub tree : Tree Red
  pub session : IsSession nil dummy val s tree
  pub small : size tree ≤ n
  pub owned : Owned s₀.allocated s tree
  pub numbers : (w : ℤ) → holds val w (inorder tree) ≡ bag w

bag_step-eq :
    (c : Command) (bag bag' : ℤ → ℕ) (w : ℤ) → bag w ≡ bag' w → bag_step c bag w ≡ bag_step c bag' w
bag_step-eq (insert_number v) bag bag' w e = omega (arith, e)
bag_step-eq (delete_number v) bag bag' w e = omega (arith, e)
bag_step-eq print bag bag' w e = e

module _ (s₀ : Store Red) (nil dummy : Ptr) (left_field right_field : Ptr → Ptr) (fuel : ℕ)
    (garbage : ℤ) where
  pub start-Reached :
      (s : Store Red) (val : Values)
      → live s₀.allocated nil ≡ true
      → s₀.allocated dummy ≡ true
      → init nil s₀ ≡ ok tt s
      → Reached s₀ nil dummy val s 0 (λ w. 0)
  start-Reached s val there taken run =
      let (tree, sentinel) = at_ok tt s (init-IsTree nil s₀ there) run in
      let same = at_ok tt s (init-allocated nil s₀ there) run in
      record {
        tree = leaf;
        session = record {
          valid = record {
            held = record { at = tree; sentinel = sentinel };
            colours = record { root = refl; height = 0; coloured = refl };
            sorted = tt;
          };
          apart = refl;
          taken = ap (λ f. f dummy) same ∙ taken;
        };
        small = omega arith;
        owned = λ x. (λ z. ap (λ f. f x) same, λ i. absurd (omega (arith, i)));
        numbers = λ w. refl;
      }

  step-Reached :
      (n : ℕ) (bag : ℤ → ℕ) (c : Command) (val : Values) (s : Store Red)
      (r : Reached s₀ nil dummy val s n bag) (val' : Values) (s' : Store Red)
      → Kept nil dummy left_field right_field fuel garbage val s r.tree r.session c (some val') s'
      → Reached s₀ nil dummy val' s' (n + 1) (bag_step c bag)
  step-Reached n bag c val s r val' s' k =
      let same : k.values ≡ val' = let e = k.result in cc in
      record {
        tree = k.tree;
        session = subst (λ v. IsSession nil dummy v s' k.tree) same k.session;
        small = omega (arith, k.small, r.small);
        owned = k.owned s₀.allocated r.owned;
        numbers = λ w.
            ap (λ v. holds v w (inorder k.tree)) (sym same)
            ∙ k.bag w
            ∙ bag_step-eq c (λ u. holds val u (inorder r.tree)) bag w (r.numbers w);
      }

  -- Every state that `main` reaches by commands from `rb_init` holds a sorted red-black tree, beside its sentinel, in
  -- which each number stands as often as the commands say.
  pub Reaches-Reached :
      (val : Values) (s : Store Red) (n : ℕ) (bag : ℤ → ℕ)
      → Reaches s₀ nil dummy left_field right_field fuel garbage val s n bag
      → Reached s₀ nil dummy val s n bag
  Reaches-Reached _ _ _ _ (started {s} val there taken run) = start-Reached s val there taken run
  Reaches-Reached _ _ _ _ (commanded {val} {val'} {s} {s'} {n} {bag} c p before fresh enough run) =
      let r = Reaches-Reached val s n bag before in
      let k =
        at_ok (some val') s'
          (command-Kept nil dummy left_field right_field fuel garbage val s r.tree r.session c p
            fresh (omega (arith, r.small)))
          run in
      step-Reached n bag c val s r val' s' k

  -- After any commands from `rb_init` the end of `main` frees what the commands allocated, and nothing else: the memory
  -- that is allocated then is that of before.
  pub Reaches-frees :
      (val : Values) (s : Store Red) (n : ℕ) (bag : ℤ → ℕ)
      → Reaches s₀ nil dummy left_field right_field fuel garbage val s n bag
      → n < fuel
      → Returns (λ _ s'. (x : Ptr) → s'.allocated x ≡ s₀.allocated x) (preorder fuel free s.root s)
  Reaches-frees val s n bag reaches enough =
      let r = Reaches-Reached val s n bag reaches in
      let held = r.session.valid.held in
      preorder-frees-Owned nil fuel s₀.allocated s r.tree held.sentinel held.at r.owned
        (omega (arith, r.small))
