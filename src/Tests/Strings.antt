-- ===== src/Tests/Strings.antt =====
-- hashtable.c with keys that are strings: a walk over a table, and a comparison of strings.
use dsa.Hash.Chains.{value, count}
use dsa.Hash.Grow.{view}
use dsa.Hash.Iterate.{in_turn, each_bucket, iterate, iterate-each}
use dsa.Hash.Keys.{fnv1a_32, num_hash, num_cmp}
use dsa.Hash.Strings.{str_hash}
use dsa.Hash.{Key, Datum, Chain, ok, bucket, to_int}
use dsa.Prelude.Int.{ℤ, pos}
use dsa.Prelude.{
  ℕ, ◌+◌, ◌≤◌, ◌≡◌, refl, subst, Bool-cases, inl, inr, if◌then◌else◌, List, [], ◌∷◌, ◌==◌, ==_refl,
  ==→eq, length, arith,
}
use dsa.Tests.Hash.{table, table-IsValid}

-- a comparison that returns 0 for equal strings, and 1 for others
abbrev pub strcmp : List ℕ → List ℕ → ℤ
strcmp [] [] = pos 0
strcmp [] (y ∷ ys) = pos 1
strcmp (x ∷ xs) [] = pos 1
strcmp (x ∷ xs) (y ∷ ys) = if x == y then strcmp xs ys else pos 1

pub strcmp-equal : (xs : List ℕ) → strcmp xs xs ≡ pos 0
strcmp-equal [] = refl
strcmp-equal (x ∷ xs) = rw (==_refl x) (strcmp-equal xs)

pub strcmp-only : (xs ys : List ℕ) → strcmp xs ys ≡ pos 0 → xs ≡ ys
strcmp-only [] [] h = refl
strcmp-only [] (y ∷ ys) h = cc
strcmp-only (x ∷ xs) [] h = cc
strcmp-only (x ∷ xs) (y ∷ ys) h = elim (Bool-cases (x == y)) [
  | inl e ↦
      let t = strcmp-only xs ys (subst (λ b. (if b then strcmp xs ys else pos 1) ≡ pos 0) e h) in
      let p = ==→eq e in cc
  | inr e ↦ let bad = subst (λ b. (if b then strcmp xs ys else pos 1) ≡ pos 0) e h in cc
]

-- `a` at the addresses 1 and 2, `ab` at all others
abbrev pub string : Key → List ℕ
string key = if key == 1 then 97 ∷ [] else if key == 2 then 97 ∷ [] else 97 ∷ 98 ∷ []

-- the hash of `a` is that of the published test vectors
a_hash : str_hash string 1 ≡ 0xe40c292c
unfolding str_hash fnv1a_32
a_hash = refl

abbrev sum : Key → Datum → ℕ → ℕ
sum key d s = s + d

iterate-each_example :
    (os : Chain) × (iterate table sum 0 ≡ ok (in_turn (λ o. sum o.key o.datum) os 0))
    × (length os ≡ 3)
    × ((q : Key)
        → (value num_hash num_cmp q os ≡ view num_hash num_cmp table q)
          × (count num_hash num_cmp q os ≤ 1))
iterate-each_example = iterate-each num_hash num_cmp table sum 0 table-IsValid (omega arith)

iterate_runs : iterate table sum 0 ≡ ok 1900
unfolding iterate each_bucket bucket to_int
iterate_runs = refl
