-- ===== src/Hash/Buckets.antt =====
-- The array of chains: where a key's objects stand, and what a write to one chain does to the whole.
use dsa.Hash.Chains.{or_else, or_else-none, value, count, value-none, value-append, count-append}
use dsa.Hash.Keys.{IsKeyed, same}
use dsa.Hash.{Key, Obj, Chain}
use dsa.Prelude.Int.{ℤ}
use dsa.Prelude.{
  ℕ, zero, suc, ◌+◌, ◌%◌, ◌<◌, ◌≡◌, ◌≢◌, refl, sym, ◌∙◌, ap, subst, inl, inr, Bool-cases, some,
  List, [], ◌∷◌, length, get_elem?, replicate, length-append, some-eq, arith,
}
use dsa.Prelude.{set as write}
use mathlib.Core.List.{flatten}

module _ (hash : Key → ℕ) (cmp : Key → Key → ℤ) where
  -- every object of the chain carries its key's hash and belongs into the bucket `i` of `n`
  abbrev pub AllHome : ℕ → ℕ → Chain → Type 0
  AllHome n i [] = Unit {0}
  AllHome n i (o ∷ os) = (o.hash ≡ hash o.key) × (o.hash % n ≡ i) × AllHome n i os

  -- the chains are those of the buckets from `i` on
  abbrev pub IsSpread : ℕ → ℕ → List Chain → Type 0
  IsSpread n i [] = Unit {0}
  IsSpread n i (c ∷ cs) = AllHome n i c × IsSpread n (suc i) cs

  pub count-home :
      (k : IsKeyed hash cmp) (q : Key) (n i : ℕ) (c : Chain)
      → AllHome n i c
      → hash q % n ≢ i
      → count hash cmp q c ≡ 0
  count-home k q n i [] h ne = refl
  count-home k q n i (o ∷ os) h ne = elim (Bool-cases (same cmp o.key q)) [
    | inl e ↦ absurd (ne (ap (λ x. x % n) (sym (h.0 ∙ k.same_hash o.key q e)) ∙ h.1))
    | inr e ↦ rw e (omega (arith, count-home k q n i os h.2 ne))
  ]

  pub count-before :
      (k : IsKeyed hash cmp) (q : Key) (n i : ℕ) (cs : List Chain)
      → IsSpread n i cs
      → hash q % n < i
      → count hash cmp q (flatten cs) ≡ 0
  unfolding flatten
  count-before k q n i [] h lt = refl
  count-before k q n i (c ∷ cs) h lt = omega (
    arith,
    count-append hash cmp q c (flatten cs),
    count-home k q n i c h.0 (omega arith),
    count-before k q n (suc i) cs h.1 (omega arith),
  )

  -- all occurrences of a key, and its value, are those in its own bucket
  pub record IsOwn (q : Key) (cs : List Chain) (c : Chain) : Type 0 where
    pub occurrences : count hash cmp q (flatten cs) ≡ count hash cmp q c
    pub reads : value hash cmp q (flatten cs) ≡ value hash cmp q c

  pub bucket-IsOwn :
      (k : IsKeyed hash cmp) (q : Key) (n i j : ℕ) (cs : List Chain) (c : Chain)
      → IsSpread n i cs
      → hash q % n ≡ i + j
      → get_elem? cs j ≡ some c
      → IsOwn q cs c
  unfolding flatten
  bucket-IsOwn k q n i j [] c h e g = cc
  bucket-IsOwn k q n i zero (d ∷ cs) c h e g =
      let gone = count-before k q n (suc i) cs h.1 (omega arith) in
      let d≡c = some-eq g in
      record {
        occurrences =
            omega (arith, count-append hash cmp q d (flatten cs), gone, ap (count hash cmp q) d≡c);
        reads =
            value-append hash cmp q d (flatten cs)
            ∙ ap (or_else (value hash cmp q d)) (value-none hash cmp q (flatten cs) gone)
            ∙ or_else-none (value hash cmp q d)
            ∙ ap (value hash cmp q) d≡c;
      }
  bucket-IsOwn k q n i (suc j) (d ∷ cs) c h e g =
      let gone = count-home k q n i d h.0 (omega arith) in
      let rest = bucket-IsOwn k q n (suc i) j cs c h.1 (omega arith) g in
      record {
        occurrences = omega (arith, count-append hash cmp q d (flatten cs), gone, rest.occurrences);
        reads =
            value-append hash cmp q d (flatten cs)
            ∙ ap (λ o. or_else o (value hash cmp q (flatten cs))) (value-none hash cmp q d gone)
            ∙ rest.reads;
      }

  pub AllHome-bucket :
      (n i j m : ℕ) (cs : List Chain) (c : Chain)
      → i + j ≡ m
      → IsSpread n i cs
      → get_elem? cs j ≡ some c
      → AllHome n m c
  AllHome-bucket n i j m [] c e h g = cc
  AllHome-bucket n i zero m (d ∷ cs) c e h g =
      subst (λ x. AllHome n x c) (omega arith) (subst (AllHome n i) (some-eq g) h.0)
  AllHome-bucket n i (suc j) m (d ∷ cs) c e h g =
      AllHome-bucket n (suc i) j m cs c (omega arith) h.1 g

  pub write-IsSpread :
      (n i j m : ℕ) (cs : List Chain) (c : Chain)
      → i + j ≡ m
      → IsSpread n i cs
      → AllHome n m c
      → IsSpread n i (write cs j c)
  write-IsSpread n i j m [] c e h g = tt
  write-IsSpread n i zero m (d ∷ cs) c e h g = (subst (λ x. AllHome n x c) (omega arith) g, h.1)
  write-IsSpread n i (suc j) m (d ∷ cs) c e h g =
      (h.0, write-IsSpread n (suc i) j m cs c (omega arith) h.1 g)

  pub count-write :
      (q : Key) (j : ℕ) (cs : List Chain) (c d : Chain)
      → get_elem? cs j ≡ some c
      → count hash cmp q (flatten (write cs j d)) + count hash cmp q c
        ≡ count hash cmp q (flatten cs) + count hash cmp q d
  unfolding flatten
  count-write q j [] c d g = cc
  count-write q zero (e ∷ cs) c d g = omega (
    arith,
    count-append hash cmp q d (flatten cs),
    count-append hash cmp q e (flatten cs),
    ap (count hash cmp q) (some-eq g),
  )
  count-write q (suc j) (e ∷ cs) c d g = omega (
    arith,
    count-append hash cmp q e (flatten (write cs j d)),
    count-append hash cmp q e (flatten cs),
    count-write q j cs c d g,
  )

  -- where the key's value in the chain is unchanged, so it is in the table
  pub value-write :
      (q : Key) (j : ℕ) (cs : List Chain) (c d : Chain)
      → get_elem? cs j ≡ some c
      → value hash cmp q d ≡ value hash cmp q c
      → value hash cmp q (flatten (write cs j d)) ≡ value hash cmp q (flatten cs)
  unfolding flatten
  value-write q j [] c d g e = cc
  value-write q zero (a ∷ cs) c d g e =
      value-append hash cmp q d (flatten cs)
      ∙ ap (λ o. or_else o (value hash cmp q (flatten cs)))
          (e ∙ ap (value hash cmp q) (sym (some-eq g)))
      ∙ sym (value-append hash cmp q a (flatten cs))
  value-write q (suc j) (a ∷ cs) c d g e =
      value-append hash cmp q a (flatten (write cs j d))
      ∙ ap (or_else (value hash cmp q a)) (value-write q j cs c d g e)
      ∙ sym (value-append hash cmp q a (flatten cs))

pub length-flatten-write :
    (j : ℕ) (cs : List Chain) (c d : Chain)
    → get_elem? cs j ≡ some c
    → length (flatten (write cs j d)) + length c ≡ length (flatten cs) + length d
unfolding flatten
length-flatten-write j [] c d g = cc
length-flatten-write zero (e ∷ cs) c d g = omega (
  arith,
  length-append d (flatten cs),
  length-append e (flatten cs),
  ap (λ (x : Chain). length x) (some-eq g),
)
length-flatten-write (suc j) (e ∷ cs) c d g = omega (
  arith,
  length-append e (flatten (write cs j d)),
  length-append e (flatten cs),
  length-flatten-write j cs c d g,
)

pub flatten-empty : (n : ℕ) → flatten {A = Obj} (replicate n []) ≡ []
unfolding flatten
flatten-empty zero = refl
flatten-empty (suc n) = flatten-empty n

pub empty-IsSpread :
    (hash : Key → ℕ) (cmp : Key → Key → ℤ) (n i m : ℕ) → IsSpread hash cmp n i (replicate m [])
empty-IsSpread hash cmp n i zero = tt
empty-IsSpread hash cmp n i (suc m) = (tt, empty-IsSpread hash cmp n (suc i) m)
