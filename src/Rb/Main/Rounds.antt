-- ===== src/Rb/Main/Rounds.antt =====
-- The rounds of the loop of `main` of rbtree.c: each keeps the tree, and the loop comes to an end.
use dsa.Console.Ending.{Trouble}
use dsa.Console.{Reply, got, failed, Conversion, has_failure, has_failure-more, chomp}
use dsa.Numbers.{Values}
use dsa.Prelude.Int.{ℤ, pos}
use dsa.Prelude.{
  ℕ, zero, suc, ◌+◌, ◌<◌, ◌≡◌, ◌⊎◌, inl, inr, refl, sym, ap, subst, Bool, true, false, Option, ◌==◌,
  Bool-cases, List, [], ◌∷◌, length, arith,
}
use dsa.Rb.Defs.{Red}
use dsa.Rb.Main.{Number, number, failure, Ending, finished, exited, obey, numbered, turn, main_loop}
use dsa.Rb.Main.Reading.{Leaves, read_long-Leaves}
use dsa.Rb.Session.Kept.{IsSession, command-or-none}
use dsa.Rb.Session.{Command, insert_number, delete_number, print}
use dsa.Store.Returns.{Returns, returns, bind, mono}
use dsa.Store.{Ptr, Store, Cmd, pure}
use dsa.Tree.Owned.{Owned, IsCalloc}
use dsa.Tree.{Tree, size}

module _ (nil dummy : Ptr) (left_field right_field : Ptr → Ptr) (fuel : ℕ) (garbage : ℤ)
    (strtol : List ℕ → Conversion ℤ) (calloc : Store Red → Option Ptr) (honest : IsCalloc calloc)
    (base : Ptr → Bool) where
  -- the tree at the end of the loop
  pub record Done (rs : List Reply) (e : Ending) (s : Store Red) : Type 0 where
    pub values : Values
    pub tree : Tree Red
    pub session : IsSession nil dummy values s tree
    pub small : size tree < fuel
    pub owned : Owned base s tree
    pub cause : (e ≡ finished) ⊎ Trouble calloc rs s

  -- a tree that has room for a node for each answer that is left
  pub record Ready (val : Values) (rs : List Reply) (s : Store Red) : Type 0 where
    pub tree : Tree Red
    pub session : IsSession nil dummy val s tree
    pub room : size tree + length rs < fuel
    pub owned : Owned base s tree

  abbrev Ends : (Values → List Reply → Cmd Red Ending) → List Reply → Type 0
  Ends again rs =
      (val : Values) (s : Store Red) → Ready val rs s → Returns (Done rs) (again val rs s)

  -- the input `rs` is what is left of `all`
  record IsRest (rs all : List Reply) : Type 0 where
    pub shorter : length rs < length all
    pub failures : has_failure rs ≡ true → has_failure all ≡ true

  Done-IsRest :
      (rs all : List Reply) (e : Ending) (s : Store Red)
      → IsRest rs all
      → Done rs e s
      → Done all e s
  Done-IsRest rs all e s rest d = record {
    values = d.values;
    tree = d.tree;
    session = d.session;
    small = d.small;
    owned = d.owned;
    cause = elim d.cause [
      | inl h ↦ inl h
      | inr (inl h) ↦ inr (inl (rest.failures h))
      | inr (inr h) ↦ inr (inr h)
    ];
  }

  Ready-IsRest :
      (val : Values) (rs all : List Reply) (s : Store Red)
      → IsRest rs all
      → Ready val all s
      → Ready val rs s
  Ready-IsRest val rs all s rest r =
      let i = r.room in
      let j = rest.shorter in
      record { tree = r.tree; session = r.session; room = omega arith; owned = r.owned }

  stop :
      (val : Values) (rs : List Reply) (s : Store Red) (e : Ending)
      → Ready val rs s
      → (e ≡ finished) ⊎ Trouble calloc rs s
      → Returns (Done rs) (pure e s)
  stop val rs s e r why = returns (record {
    values = val;
    tree = r.tree;
    session = r.session;
    small = let i = r.room in omega arith;
    owned = r.owned;
    cause = why;
  })

  module _ (again : Values → List Reply → Cmd Red Ending) (all : List Reply) (val : Values)
      (s : Store Red) (r : Ready val all s) where
    go_on : (rs : List Reply) → IsRest rs all → Ends again rs → Returns (Done all) (again val rs s)
    go_on rs rest ends =
        mono (ends val s (Ready-IsRest val rs all s rest r)) (λ e s'. Done-IsRest rs all e s' rest)

    obey-Done :
        (c : Command) (rs : List Reply)
        → IsRest rs all
        → Ends again rs
        → Returns
            (Done all)
            (obey nil dummy left_field right_field fuel garbage strtol calloc again c val rs s)
    obey-Done c rs rest ends =
        let i = r.room in
        let j = rest.shorter in
        bind
          (command-or-none nil dummy left_field right_field fuel garbage val s r.tree r.session c
            (calloc s) (λ p e. honest s p e) (omega arith))
          λ a s' h. elim h [
            | inl k ↦ rw k.result (
                mono
                  (ends k.values s' (record {
                    tree = k.tree;
                    session = k.session;
                    room = let l = k.small in omega arith;
                    owned = k.owned base r.owned;
                  }))
                  (λ e s''. Done-IsRest rs all e s'' rest))
            | inr (e, none_left, same) ↦
                rw (e, same) (stop val all s exited r (inr (inr none_left)))
          ]

    numbered-Done :
        (c : ℤ → Command) (x : Reply) (rs : List Reply) (n : Number)
        → all ≡ x ∷ rs
        → Leaves rs n
        → ((rest : List Reply) → IsRest rest all → Ends again rest)
        → Returns
            (Done all)
            (numbered nil dummy left_field right_field fuel garbage strtol calloc again c n val s)
    numbered-Done c x rs failure e h ends =
        stop val all s exited r
          (inr (inl (subst (λ l. has_failure l ≡ true) (sym e) (has_failure-more x rs h))))
    numbered-Done c x rs (number v true left) e h ends = stop val all s finished r (inl refl)
    numbered-Done c x rs (number v false left) e (small, h) ends =
        let rest : IsRest left all = record {
          shorter = omega (arith, ap length e, small);
          failures = λ i. subst (λ l. has_failure l ≡ true) (sym e) (has_failure-more x rs (h i));
        } in
        obey-Done (c v) left rest (ends left rest)

    turn-Done :
        (x : Reply) (rs : List Reply) (text : List ℕ)
        → all ≡ x ∷ rs
        → ((rest : List Reply) → IsRest rest all → Ends again rest)
        → Returns
            (Done all)
            (turn nil dummy left_field right_field fuel garbage strtol calloc again val rs text s)
    turn-Done x rs [] e ends = stop val all s finished r (inl refl)
    turn-Done x rs (b ∷ c ∷ text) e ends =
        let rest : IsRest rs all = record {
          shorter = omega (arith, ap length e);
          failures = λ i. subst (λ l. has_failure l ≡ true) (sym e) (has_failure-more x rs i);
        } in
        go_on rs rest (ends rs rest)
    turn-Done x rs (b ∷ []) e ends =
        let rest : IsRest rs all = record {
          shorter = omega (arith, ap length e);
          failures = λ i. subst (λ l. has_failure l ≡ true) (sym e) (has_failure-more x rs i);
        } in
        let leaves = read_long-Leaves strtol (pos 0) rs in
        elim (Bool-cases (b == b'i')) [
          | inl e1 ↦ rw e1 (numbered-Done insert_number x rs _ e leaves ends)
          | inr e1 ↦ elim (Bool-cases (b == b'd')) [
            | inl e2 ↦ rw (e1, e2) (numbered-Done delete_number x rs _ e leaves ends)
            | inr e2 ↦ elim (Bool-cases (b == b'p')) [
              | inl e3 ↦ rw (e1, e2, e3) (obey-Done print rs rest (ends rs rest))
              | inr e3 ↦ rw (e1, e2, e3) (go_on rs rest (ends rs rest))
            ]
          ]
        ]

  pub main_loop-Done :
      (k : ℕ) (val : Values) (rs : List Reply) (s : Store Red)
      → length rs < k
      → Ready val rs s
      → Returns
          (Done rs)
          (main_loop nil dummy left_field right_field fuel garbage strtol calloc k val rs s)
  unfolding main_loop
  main_loop-Done zero val rs s enough r = absurd (omega arith)
  main_loop-Done (suc k) val [] s enough r = stop val [] s finished r (inl refl)
  main_loop-Done (suc k) val (failed true ∷ rs) s enough r = stop val _ s finished r (inl refl)
  main_loop-Done (suc k) val (failed false ∷ rs) s enough r = stop val _ s exited r (inr (inl refl))
  main_loop-Done (suc k) val (got [] true ∷ rs) s enough r = stop val _ s finished r (inl refl)
  main_loop-Done (suc k) val (got [] false ∷ rs) s enough r = stop val _ s exited r (inr (inl refl))
  main_loop-Done (suc k) val (got (b ∷ bs) eof ∷ rs) s enough r =
      turn-Done (main_loop nil dummy left_field right_field fuel garbage strtol calloc k)
        (got (b ∷ bs) eof ∷ rs) val s r (got (b ∷ bs) eof) rs (chomp (b ∷ bs)) refl
        λ rest i val' s' r'. let j = i.shorter in main_loop-Done k val' rest s' (omega arith) r'
