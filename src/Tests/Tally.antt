-- ===== src/Tests/Tally.antt =====
-- The tests of hashtable.c: three words, two of them equal.
use dsa.Hash.Grow.{IsValid, view}
use dsa.Hash.Keys.{num_hash, num_cmp, fnv1a_32, same}
use dsa.Hash.Strings.{str_hash, str_cmp, str_cmp-IsKeyed}
use dsa.Hash.Tally.Count.{as_datum, falls_short, occurrences, IsCopied}
use dsa.Hash.Tally.Words.{Printed, str_test-Tallied}
use dsa.Hash.Tally.{
  bucket_sizes, Word, str_test, num_test, store, count_word, count_words, put_numbers, stats,
}
use dsa.Hash.{
  Key, Table, Run, fault, ok, rem, to_int, bucket, init, move_chain, move_all, grow, make_room, set,
  get,
}
use dsa.Prelude.Int.{ℤ}
use dsa.Prelude.{
  ℕ, ◌≡◌, ◌⊎◌, refl, subst, true, false, Option, none, some, some-eq, List, [], ◌∷◌, arith,
}
use dsa.Tests.Hash.{table}
use dsa.Tests.Strings.{string, strcmp, strcmp-equal, strcmp-only}

abbrev hash : Key → ℕ
hash = str_hash string

abbrev cmp : Key → Key → ℤ
cmp = str_cmp string strcmp

-- `a`, `ab` and `a`, each with a copy
abbrev words : List Word
words =
    record { key = 1; copy = some 2; object = true; array = true }
    ∷ record { key = 3; copy = some 4; object = true; array = true }
    ∷ record { key = 2; copy = some 1; object = true; array = true }
    ∷ []

words-IsCopied : IsCopied hash cmp words
unfolding str_cmp
words-IsCopied = (
  λ c e. subst (λ x. same cmp 1 x ≡ true) (some-eq e) refl,
  (
    λ c e. subst (λ x. same cmp 3 x ≡ true) (some-eq e) refl,
    (λ c e. subst (λ x. same cmp 2 x ≡ true) (some-eq e) refl, tt),
  ),
)

str_test-Tallied_example :
    ((tbl : Table) × (str_test hash cmp true 2 words ≡ ok (some tbl))
      × IsValid hash cmp tbl
      × ((q : Key) → view hash cmp tbl q ≡ as_datum (occurrences hash cmp words q))
      × Printed hash cmp tbl)
    ⊎ ((str_test hash cmp true 2 words ≡ ok none) × ((true ≡ false) ⊎ (falls_short words ≡ true)))
str_test-Tallied_example =
    str_test-Tallied hash cmp (str_cmp-IsKeyed string strcmp strcmp-equal strcmp-only) true 2 words
      (omega arith) (omega arith) words-IsCopied

sizes_run : stats table ≡ ok (2 ∷ 1 ∷ [])
unfolding stats bucket_sizes bucket to_int
sizes_run = refl

-- the number of keys, and what two keys hold
abbrev count_of : Run (Option Table) → ℕ
count_of (ok (some tbl)) = tbl.nkeys
count_of (ok none) = 100
count_of fault = 101

words_run : count_of (str_test hash cmp true 2 words) ≡ 2
unfolding str_test count_words count_word store init rem to_int bucket move_chain move_all grow
    make_room set get str_hash str_cmp fnv1a_32
words_run = refl

numbers_run :
    count_of (num_test true 2 ((7, true, true) ∷ (9, true, false) ∷ (7, true, true) ∷ [])) ≡ 2
unfolding num_test put_numbers store init rem to_int bucket move_chain move_all grow make_room set
    get num_hash num_cmp
numbers_run = refl
