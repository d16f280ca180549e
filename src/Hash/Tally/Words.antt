-- ===== src/Hash/Tally/Words.antt =====
-- `strtest` counts each word as often as it occurs.
use dsa.Hash.Tally.Stats.{sum, stats-sum}
use dsa.Hash.Tally.Count.{
  as_datum, short, falls_short, occurrences, IsCopied, Counts, count_word-Counted,
}
use dsa.Hash.Grow.{IsValid, view}
use dsa.Hash.Init.{init-IsValid}
use dsa.Hash.Keys.{IsKeyed, same}
use dsa.Hash.Tally.{Word, zeros, count_words, str_test, stats}
use dsa.Hash.{Key, Table, Status, done, no_memory, Run, ok, init}
use dsa.Prelude.Int.{ℤ}
use dsa.Prelude.{
  ℕ, ◌^◌, ◌+◌, ◌*◌, ◌≤◌, ◌<◌, ◌≡◌, ◌⊎◌, inl, inr, refl, sym, ◌∙◌, ap, Bool, true, false, ◌||◌,
  Option, none, some, to_nat, List, [], ◌∷◌, length, arith,
}

short-left : (a b : Bool) → a ≡ true → (a || b) ≡ true
short-left true b e = refl
short-left false b e = cc

short-right : (a b : Bool) → b ≡ true → (a || b) ≡ true
short-right true b e = refl
short-right false b e = e

module _ (hash : Key → ℕ) (cmp : Key → Key → ℤ) where
  -- the words one after the other
  abbrev Tallied : (b n : ℕ) → (Key → ℕ) → List Word → Run (Option Table) → Type 0
  Tallied b n t ws r =
      ((tbl : Table) × (r ≡ ok (some tbl))
        × Counts hash cmp b (n + length ws) (λ q. t q + occurrences hash cmp ws q) tbl)
      ⊎ ((r ≡ ok none) × (falls_short ws ≡ true))

  Counts-eq :
      (b n n' : ℕ) (t t' : Key → ℕ) (tbl : Table)
      → n ≡ n'
      → ((q : Key) → t q ≡ t' q)
      → Counts hash cmp b n t tbl
      → Counts hash cmp b n' t' tbl
  Counts-eq b n n' t t' tbl e f c = record {
    valid = c.valid;
    reads = λ q. c.reads q ∙ ap as_datum (f q);
    bound = λ q. omega (arith, c.bound q, e, f q);
    alike = λ a q g. sym (f a) ∙ c.alike a q g ∙ f q;
    few = let i = c.few in omega (arith, e);
    narrow = let i = c.narrow in omega (arith, e);
  }

  Tallied-more :
      (b n : ℕ) (t : Key → ℕ) (w : Word) (ws : List Word) (r : Run (Option Table))
      → Tallied b (n + 1) (λ q. t q + to_nat (same cmp w.key q)) ws r
      → Tallied b n t (w ∷ ws) r
  Tallied-more b n t w ws r (inl (tbl, e, c)) =
      inl (tbl, e, Counts-eq b _ _ _ _ tbl (omega arith) (λ q. omega arith) c)
  Tallied-more b n t w ws r (inr (e, f)) = inr (e, short-right (short w) (falls_short ws) f)

  count_words-Tallied :
      (k : IsKeyed hash cmp) (b n : ℕ) (t : Key → ℕ) (tbl : Table) (ws : List Word)
      → Counts hash cmp b n t tbl
      → b + 2 * (n + length ws) ≤ 2 ^ 30
      → IsCopied hash cmp ws
      → Tallied b n t ws (count_words hash cmp tbl ws)
  unfolding count_words
  count_words-Tallied k b n t tbl [] c small copied =
      inl (tbl, refl, Counts-eq b n (n + 0) t _ tbl (omega arith) (λ q. omega arith) c)
  count_words-Tallied k b n t tbl (w ∷ ws) c small (copied, rest) =
      let more = λ (q : Key). t q + to_nat (same cmp w.key q) in
      elim (count_word-Counted hash cmp k b n t tbl c w (omega (arith, small)) copied) [
        | inr (e, f) ↦ rw e (inr (refl, short-left (short w) (falls_short ws) f))
        | inl (tbl', e, c') ↦ rw e (
            Tallied-more b n t w ws (count_words hash cmp tbl' ws)
              (count_words-Tallied k b (n + 1) more tbl' ws c' (omega (arith, small)) rest))
      ]

  no_table : (b : ℕ) (ws : List Word) → str_test hash cmp false b ws ≡ ok none
  unfolding str_test init
  no_table b ws = refl

  str_test-run :
      (b : ℕ) (ws : List Word) (tbl : Table)
      → init true zeros b ≡ (tbl, done)
      → str_test hash cmp true b ws ≡ count_words hash cmp tbl ws
  unfolding str_test
  str_test-run b ws tbl run =
      ap
        (λ (r : Table × Status). elim r.1 as (λ _. Run (Option Table)) [
          | done ↦ count_words hash cmp r.0 ws
          | no_memory ↦ ok none
        ])
        run

  init-sizes :
      (b : ℕ) (tbl : Table) → init true zeros b ≡ (tbl, done) → (tbl.nkeys ≡ 0) × (tbl.nbuckets ≡ b)
  unfolding init
  init-sizes b tbl run = (
    sym (ap (λ (r : Table × Status). r.0.nkeys) run),
    sym (ap (λ (r : Table × Status). r.0.nbuckets) run),
  )

  -- the sizes of the buckets, as `print_stats` prints them
  abbrev pub Printed : Table → Type 0
  Printed tbl =
      (ns : List ℕ) × (stats tbl ≡ ok ns) × (length ns ≡ tbl.nbuckets) × (sum ns ≡ tbl.nkeys)

  -- `strtest` from a table of `b` buckets, for words whose number leaves room for the array to grow in `int`, comes to
  -- a valid table that holds under each key how many of the words are equal to it, and nothing where none is, and the sizes of its buckets that `print_stats` counts sum up to its number of keys; or it
  -- exits, and `calloc` or `strdup` had no memory.
  pub str_test-Tallied :
      (k : IsKeyed hash cmp) (got : Bool) (b : ℕ) (ws : List Word)
      → 0 < b
      → b + 2 * length ws ≤ 2 ^ 30
      → IsCopied hash cmp ws
      → ((tbl : Table) × (str_test hash cmp got b ws ≡ ok (some tbl))
          × IsValid hash cmp tbl
          × ((q : Key) → view hash cmp tbl q ≡ as_datum (occurrences hash cmp ws q))
          × Printed tbl)
        ⊎ ((str_test hash cmp got b ws ≡ ok none) × ((got ≡ false) ⊎ (falls_short ws ≡ true)))
  unfolding str_test
  str_test-Tallied k false b ws pos small copied = inr (no_table b ws, inl refl)
  str_test-Tallied k true b ws pos small copied =
      let (tbl, run, valid, nothing) =
        init-IsValid hash cmp zeros b refl pos (omega (arith, small)) in
      let start : Counts hash cmp b 0 (λ q. 0) tbl = record {
        valid = valid;
        reads = nothing;
        bound = λ q. omega arith;
        alike = λ a q e. refl;
        few = let (i, j) = init-sizes b tbl run in omega (arith, i);
        narrow = let (i, j) = init-sizes b tbl run in omega (arith, j);
      } in
      rw (str_test-run b ws tbl run)
        (elim (count_words-Tallied k b 0 (λ q. 0) tbl ws start (omega (arith, small)) copied) [
          | inl (tbl', e, c) ↦ inl (
            tbl',
            e,
            c.valid,
            λ q. c.reads q ∙ ap as_datum (omega arith),
            stats-sum hash cmp tbl' c.valid (let i = c.narrow in omega (arith, small)),
          )
          | inr (e, f) ↦ inr (e, inr f)
        ])
