-- ===== src/Hash/Main/Round.antt =====
-- One round of `main` of hashtable.c: a key with its value is stored, and the strings that are not needed are freed.
use dsa.Hash.Get.{or_null, get-view}
use dsa.Hash.Grow.{IsValid, view}
use dsa.Hash.Keys.{IsKeyed}
use dsa.Hash.Main.{Live, release, check, put}
use dsa.Hash.Set.{Stored, set-Stored}
use dsa.Hash.Tally.Stats.{stats-sum}
use dsa.Hash.Tally.{store}
use dsa.Hash.{Key, Datum, Table, ok, ◌>>=◌, size_mod, int_limit}
use dsa.Prelude.Int.{ℤ}
use dsa.Tree.Owned.{update-other}
use dsa.Prelude.{
  ℕ, ◌+◌, ◌*◌, ◌<◌, ◌≡◌, ◌≢◌, inl, inr, refl, sym, ◌∙◌, Bool, true, false, Option, none, some, ◌==◌,
  ==_false, if◌then◌else◌, update, arith,
}

-- the strings after a round, by what the table held under the key: the old value and the new key are freed
abbrev pub freed : Key → Option Datum → Live → Live
freed key none live = live
freed key (some d) live = update (update live d false) key false

-- an old value is a string beside the key
abbrev pub IsApart : Key → Option Datum → Live → Type 0
IsApart key none live = Unit {0}
IsApart key (some d) live = (d ≢ 0) × (d ≢ key) × (live d ≡ true)

check-ok : (p : Key) (live : Live) → p ≢ 0 → live p ≡ true → check p live ≡ ok live
unfolding check
check-ok p live ne e = rw (==_false ne, e) refl

release-ok :
    (p : Key) (live : Live) → p ≢ 0 → live p ≡ true → release p live ≡ ok (update live p false)
unfolding release
release-ok p live ne e = rw (==_false ne, e) refl

-- the frees after `hashtable_set`
frees :
    (key : Key) (o : Option Datum) (live : Live)
    → key ≢ 0
    → live key ≡ true
    → IsApart key o live
    → (if or_null o == 0 then ok live else (release (or_null o) live >>= release key))
      ≡ ok (freed key o live)
frees key none live ne e apart = refl
frees key (some d) live ne e (some_string, other, there) =
    let still : update live d false key ≡ true = update-other live d key (λ z. other (sym z)) ∙ e in
    rw (==_false some_string, release-ok d live some_string there)
      (release-ok key (update live d false) ne still)

module _ (hash : Key → ℕ) (cmp : Key → Key → ℤ) (object array : Table → Bool) where
  -- A round on a valid table whose array may double within `int`, with memory for an object, for a key that is a string, where an old value
  -- is another string: the value is stored under the key, the table stays valid, and an old value and the
  -- new key are freed, since the table keeps the key that it has.
  pub put-Stored :
      (k : IsKeyed hash cmp) (tbl : Table) (key val : Key) (live : Live)
      → IsValid hash cmp tbl
      → tbl.nbuckets * 2 < int_limit
      → tbl.nkeys + 1 < size_mod
      → object tbl ≡ true
      → key ≢ 0
      → live key ≡ true
      → IsApart key (view hash cmp tbl key) live
      → (tbl' : Table) × Stored hash cmp tbl key val tbl'
        × (put hash cmp object array tbl key val live
            ≡ ok (some (tbl', freed key (view hash cmp tbl key) live)))
  unfolding put store
  put-Stored k tbl key val live v small few memory ne there apart =
      let (tbl', run, s) =
        set-Stored hash cmp k (array tbl) tbl key val v (omega (arith, small)) few in
      let narrow : tbl'.nbuckets < int_limit = elim s.width [
        | inl e ↦ omega (arith, e, small)
        | inr (e, f) ↦ omega (arith, e, small)
      ] in
      let (ns, sizes, wide, total) = stats-sum hash cmp tbl' s.valid narrow in
      (
        tbl',
        s,
        rw
            (
              check-ok key live ne there,
              get-view hash cmp k tbl key v,
              memory,
              run,
              frees key (view hash cmp tbl key) live ne there apart,
              sizes,
            )
            refl,
      )
