-- ===== src/Hash/Tally.antt =====
-- The tests of hashtable.c: `strtest` counts words, `numtest` puts numbers in, and `print_stats` counts the keys in
-- each bucket. The words that `fread` and the regular expression find, and the numbers of `random`, are arguments.

pub mod Count
pub mod Words
pub mod Stats
use dsa.Hash.{
  Key, Datum, Chain, Table, Status, done, no_memory, Run, ok, ◌>>=◌, size_mod, to_int, bucket, init,
  set, get,
}
use dsa.Hash.Keys.{num_hash, num_cmp}
use dsa.Prelude.Int.{ℤ}
use dsa.Prelude.{
  ℕ, zero, suc, ◌+◌, ◌%◌, Bool, Option, none, some, List, [], ◌∷◌, ◌==◌, if◌then◌else◌, length,
}

-- A word in the buffer, by its address, with what `strdup` answers, and whether `calloc` has memory for an object and for
-- an array.
pub record Word : Type 0 where
  pub key : Key
  pub copy : Option Key
  pub object : Bool
  pub array : Bool

-- the table with zeros that the tests start from
abbrev pub zeros : Table
zeros = record { buckets = []; nbuckets = 0; nkeys = 0 }

module _ (hash : Key → ℕ) (cmp : Key → Key → ℤ) where
  -- `hashtable_set`, and the exit if it fails
  unfoldable pub store : Bool → Bool → Table → Key → Datum → Run (Option Table)
  store object array tbl key v = do
    (tbl', status) ← set hash cmp object array tbl key v
    ok (elim status [ done ↦ some tbl' | no_memory ↦ none ])

  -- the work for one word; a new word is copied
  unfoldable pub count_word : Table → Word → Run (Option Table)
  unfolding store
  count_word tbl w = do
    v ← get hash cmp tbl w.key
    if v == 0
        then elim w.copy [ some key ↦ store w.object w.array tbl key 1 | none ↦ ok none ]
        else store w.object w.array tbl w.key ((v + 1) % size_mod)

  unfoldable pub count_words : Table → List Word → Run (Option Table)
  unfolding count_word
  count_words tbl [] = ok (some tbl)
  count_words tbl (w ∷ ws) = do
    r ← count_word tbl w
    elim r [ some tbl' ↦ count_words tbl' ws | none ↦ ok none ]

  -- up to the statistics; the result none is the exit
  unfoldable pub str_test : (got : Bool) → (buckets : ℕ) → List Word → Run (Option Table)
  unfolding count_words
  str_test got b ws =
      let (tbl, status) = init got zeros b in
      elim status [ done ↦ count_words tbl ws | no_memory ↦ ok none ]

-- `numtest` up to the statistics: a number, and whether `calloc` has memory for an object and for an array
unfoldable pub put_numbers : Table → List (ℕ × Bool × Bool) → Run (Option Table)
unfolding store
put_numbers tbl [] = ok (some tbl)
put_numbers tbl ((num, object, array) ∷ nums) = do
  r ← store num_hash num_cmp object array tbl num 1
  elim r [ some tbl' ↦ put_numbers tbl' nums | none ↦ ok none ]

unfoldable pub num_test : (got : Bool) → (buckets : ℕ) → List (ℕ × Bool × Bool) → Run (Option Table)
unfolding put_numbers
num_test got b nums =
    let (tbl, status) = init got zeros b in
    elim status [ done ↦ put_numbers tbl nums | no_memory ↦ ok none ]

-- `print_stats`: the number of keys in each bucket
unfoldable pub bucket_sizes : (rounds i : ℕ) → List Chain → Run (List ℕ)
bucket_sizes zero i bs = ok []
bucket_sizes (suc k) i bs = do
  c ← bucket bs i
  next ← to_int (i + 1)
  rest ← bucket_sizes k next bs
  ok (length c ∷ rest)

unfoldable pub stats : Table → Run (List ℕ)
unfolding bucket_sizes
stats tbl = bucket_sizes tbl.nbuckets 0 tbl.buckets
