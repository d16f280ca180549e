-- ===== src/Hash/Tally/Count.antt =====
-- One word of `strtest`: its count goes up by one.
use dsa.Hash.Chains.{same_left, same_right}
use dsa.Hash.Get.{or_null, get-view}
use dsa.Hash.Grow.{IsValid, view}
use dsa.Hash.Keys.{IsKeyed, same}
use dsa.Hash.Set.{Stored, set-Stored, set-present, set-no_memory}
use dsa.Hash.Tally.{Word, store, count_word}
use dsa.Hash.{Key, Datum, Table, Run, ok, size_mod}
use dsa.Prelude.Int.{ℤ}
use dsa.Prelude.{
  ℕ, zero, suc, ◌^◌, ◌+◌, ◌*◌, ◌%◌, ◌≤◌, ◌<◌, ◌≡◌, ◌⊎◌, inl, inr, refl, ==→eq, sym, ◌∙◌, ap, subst,
  Bool, true, false, not, ◌||◌, Bool-cases, Option, none, some, Option-cases, to_nat, List, [], ◌∷◌,
  ◌==◌, if◌then◌else◌, arith,
}

-- the data of the table: NULL stands for no occurrence
abbrev pub as_datum : ℕ → Option Datum
as_datum zero = none
as_datum (suc n) = some (suc n)

abbrev pub short : Word → Bool
short w = elim w.copy [ none ↦ true | some c ↦ not w.object ]

-- an allocation failed for one of the words
abbrev pub falls_short : List Word → Bool
falls_short [] = false
falls_short (w ∷ ws) = short w || falls_short ws

module _ (hash : Key → ℕ) (cmp : Key → Key → ℤ) where
  -- how many of the words are equal to `q`
  abbrev pub occurrences : List Word → Key → ℕ
  occurrences [] q = 0
  occurrences (w ∷ ws) q = to_nat (same cmp w.key q) + occurrences ws q

  -- `strdup` answers with an equal string
  abbrev pub IsCopied : List Word → Type 0
  IsCopied [] = Unit {0}
  IsCopied (w ∷ ws) = ((c : Key) → w.copy ≡ some c → same cmp w.key c ≡ true) × IsCopied ws

  -- a valid table that holds the counts `t`, after at most `n` words
  pub record Counts (b n : ℕ) (t : Key → ℕ) (tbl : Table) : Type 0 where
    pub valid : IsValid hash cmp tbl
    pub reads : (q : Key) → view hash cmp tbl q ≡ as_datum (t q)
    pub bound : (q : Key) → t q ≤ n
    pub alike : (a q : Key) → same cmp a q ≡ true → t a ≡ t q
    pub few : tbl.nkeys ≤ n
    pub narrow : tbl.nbuckets ≤ b + 2 * n

  as_datum-pos : (n : ℕ) → 0 < n → as_datum n ≡ some n
  as_datum-pos zero i = absurd (omega (arith, i))
  as_datum-pos (suc n) i = refl

  or_null-as_datum : (n : ℕ) → or_null (as_datum n) ≡ n
  or_null-as_datum zero = refl
  or_null-as_datum (suc n) = refl

  module _ (k : IsKeyed hash cmp) (b n : ℕ) (t : Key → ℕ) (tbl : Table) (c : Counts b n t tbl)
      (w : Word) (small : b + 2 * (n + 1) ≤ 2 ^ 30) where
    abbrev more : Key → ℕ
    more q = t q + to_nat (same cmp w.key q)

    choose :
        (key q : Key)
        → same cmp w.key q ≡ same cmp key q
        → (if same cmp key q then some (suc (t w.key)) else view hash cmp tbl q) ≡ as_datum (more q)
    choose key q e = elim (Bool-cases (same cmp key q)) [
      | inl f ↦
          let g : suc (t w.key) ≡ more q =
            omega (arith, c.alike w.key q (e ∙ f), ap to_nat (e ∙ f)) in
          rw f (ap as_datum g)
      | inr f ↦
          let g : t q ≡ more q = omega (arith, ap to_nat (e ∙ f)) in
          rw f (c.reads q ∙ ap as_datum g)
    ]

    -- one more is stored under an equal key
    Counts-Stored :
        (key : Key) (tbl' : Table)
        → same cmp w.key key ≡ true
        → Stored hash cmp tbl key (suc (t w.key)) tbl'
        → Counts b (n + 1) more tbl'
    Counts-Stored key tbl' e s = record {
      valid = s.valid;
      reads = λ q. s.reads q ∙ choose key q (same_right k w.key key q e);
      bound = λ q. let i = c.bound q in ground (arith, i);
      alike = λ a q f. omega (arith, c.alike a q f, ap to_nat (same_left k w.key a q f));
      few = let i = c.few in let j = s.nkeys in omega arith;
      narrow = elim s.width [
        | inl e ↦ let i = c.narrow in omega (arith, e)
        | inr (e, f) ↦ let i = c.few in let j = s.nkeys in omega (arith, e, f)
      ];
    }

    abbrev pub Counted : Run (Option Table) → Type 0
    Counted r =
        ((tbl' : Table) × (r ≡ ok (some tbl')) × Counts b (n + 1) more tbl')
        ⊎ ((r ≡ ok none) × (short w ≡ true))

    known :
        0 < t w.key → Counted (store hash cmp w.object w.array tbl w.key ((t w.key + 1) % size_mod))
    unfolding store
    known some_count =
        let held : view hash cmp tbl w.key ≡ some (t w.key) =
          c.reads w.key ∙ as_datum-pos (t w.key) some_count in
        let fits : (t w.key + 1) % size_mod ≡ suc (t w.key) = omega (arith, c.bound w.key, small) in
        let (tbl', run, s) =
          set-Stored hash cmp k w.array tbl w.key (suc (t w.key)) c.valid
            (omega (arith, c.narrow, small)) (omega (arith, c.few, small)) in
        inl (
          tbl',
          rw
              (
                fits,
                set-present hash cmp k w.object w.array tbl w.key (suc (t w.key)) (t w.key) c.valid
                    held,
              )
              (rw run refl),
          Counts-Stored w.key tbl' (k.same_refl w.key) s,
        )

    new :
        (key : Key) (m : Bool)
        → w.copy ≡ some key
        → w.object ≡ m
        → same cmp w.key key ≡ true
        → t w.key ≡ 0
        → Counted (store hash cmp m w.array tbl key 1)
    unfolding store
    new key true e f eq z =
        let (tbl', run, s) =
          set-Stored hash cmp k w.array tbl key 1 c.valid (omega (arith, c.narrow, small))
            (omega (arith, c.few, small)) in
        let s' = subst (λ x. Stored hash cmp tbl key (suc x) tbl') (sym z) s in
        inl (tbl', rw run refl, Counts-Stored key tbl' eq s')
    new key false e f eq z =
        let out : view hash cmp tbl key ≡ none =
          c.reads key ∙ ap as_datum (sym (c.alike w.key key eq) ∙ z) in
        inr (rw (set-no_memory hash cmp k w.array tbl key 1 c.valid out) refl, rw (e, f) refl)

    by_copy :
        {o : Option Key}
        → w.copy ≡ o
        → Counted (elim o [ some key ↦ store hash cmp w.object w.array tbl key 1 | none ↦ ok none ])
        → Counted
            (elim w.copy [ some key ↦ store hash cmp w.object w.array tbl key 1 | none ↦ ok none ])
    by_copy g c =
        subst
          (λ o.
            Counted
              (elim o [ some key ↦ store hash cmp w.object w.array tbl key 1 | none ↦ ok none ]))
          (sym g) c

    abbrev unless_object : Option Key → Bool
    unless_object o = elim o [ none ↦ true | some key ↦ not w.object ]

    pub count_word-Counted :
        ((key : Key) → w.copy ≡ some key → same cmp w.key key ≡ true)
        → Counted (count_word hash cmp tbl w)
    unfolding count_word
    count_word-Counted copied =
        let reads =
          get-view hash cmp k tbl w.key c.valid
          ∙ ap ok (ap or_null (c.reads w.key) ∙ or_null-as_datum (t w.key)) in
        elim (Bool-cases (t w.key == 0)) [
          | inr f ↦ rw (reads, f) (known (ground (arith, f)))
          | inl f ↦
              rw (reads, f)
                (elim (Option-cases w.copy) [
                  | inl g ↦ by_copy g (inr (refl, ap unless_object g))
                  | inr (key, g) ↦ by_copy g (new key w.object g refl (copied key g) (==→eq f))
                ])
        ]
