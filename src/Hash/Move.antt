-- ===== src/Hash/Move.antt =====
-- The loops of `hashtable_grow`: every object is moved to the bucket of its hash in the new array.
use dsa.Hash.Buckets.{
  AllHome, IsSpread, bucket-IsOwn, AllHome-bucket, write-IsSpread, count-write, value-write,
  length-flatten-write,
}
use dsa.Hash.Chains.{or_else, value, count, value-none}
use dsa.Hash.Keys.{IsKeyed, same}
use dsa.Hash.{
  Key, Obj, Chain, Run, ok, fault, ◌>>=◌, int_limit, rem, to_int, bucket, move_chain, move_all,
}
use dsa.Prelude.Int.{ℤ}
use dsa.Prelude.{
  ℕ, suc, ◌+◌, ◌%◌, ◌≤◌, ◌<◌, ◌≡◌, refl, sym, ◌∙◌, ap, inl, inr, true, Bool-cases, some, List, [],
  ◌∷◌, ◌++◌, length, get_elem?, get_elem?-some, get_elem?-set_self, length-set, to_nat, arith,
}
use dsa.Prelude.{set as write}
use mathlib.Core.List.{flatten}
use mathlib.Core.Path.{fun_ext}

pub rem-lt : (n a : ℕ) → 0 < n → a % n < n
rem-lt n a h = omega arith

-- the bucket of a hash is there
pub rem-ok : (n a : ℕ) → 0 < n → rem a n ≡ ok (a % n)
unfolding rem
rem-ok n a h = ground arith

pub bucket-ok : (bs : List Chain) (i : ℕ) (c : Chain) → get_elem? bs i ≡ some c → bucket bs i ≡ ok c
unfolding bucket
bucket-ok bs i c g = rw (g, bucket)

pub to_int-ok : (a : ℕ) → a < int_limit → to_int a ≡ ok a
unfolding to_int
to_int-ok a h = ground arith

module _ (hash : Key → ℕ) (cmp : Key → Key → ℤ) where
  -- the chain of a key's bucket is replaced: what is read under the keys equal to it, and the others
  module _ (k : IsKeyed hash cmp) (n : ℕ) (bs : List Chain) (key : Key) (c d : Chain) where
    pub write_own :
        (j : ℕ) (q : Key)
        → IsSpread hash cmp n 0 bs
        → hash key % n ≡ j
        → get_elem? bs j ≡ some c
        → AllHome hash cmp n j d
        → same cmp key q ≡ true
        → value hash cmp q (flatten (write bs j d)) ≡ value hash cmp q d
    write_own j q spread home at all e =
        let spread' = write-IsSpread hash cmp n 0 j j bs d (omega arith) spread all in
        (bucket-IsOwn hash cmp k q n 0 j (write bs j d) d spread'
          (ap (λ h. h % n) (sym (k.same_hash key q e)) ∙ home ∙ omega arith)
          (get_elem?-set_self bs j d c at)).reads

  -- the array after the loops: nothing lost, nothing doubled
  pub record Moved (n : ℕ) (os : Chain) (fresh fresh' : List Chain) : Type 0 where
    pub width : length fresh' ≡ length fresh
    pub spread : IsSpread hash cmp n 0 fresh'
    pub occurrences :
        (q : Key)
        → count hash cmp q (flatten fresh') ≡ count hash cmp q (flatten fresh) + count hash cmp q os
    pub reads :
        (q : Key)
        → value hash cmp q (flatten fresh')
          ≡ or_else (value hash cmp q os) (value hash cmp q (flatten fresh))
    pub total : length (flatten fresh') ≡ length (flatten fresh) + length os

  -- every object carries the hash of its key
  abbrev pub AllHashed : Chain → Type 0
  AllHashed [] = Unit {0}
  AllHashed (o ∷ os) = (o.hash ≡ hash o.key) × AllHashed os

  push-Moved :
      (k : IsKeyed hash cmp) (n : ℕ) (o : Obj) (fresh : List Chain) (c : Chain)
      → IsSpread hash cmp n 0 fresh
      → o.hash ≡ hash o.key
      → get_elem? fresh (o.hash % n) ≡ some c
      → Moved n (o ∷ []) fresh (write fresh (o.hash % n) (o ∷ c))
  push-Moved k n o fresh c spread e at =
      let j = o.hash % n in
      let all : AllHome hash cmp n j (o ∷ c) =
        (e, refl, AllHome-bucket hash cmp n 0 j j fresh c (omega arith) spread at) in
      record {
        width = length-set fresh j (o ∷ c);
        spread = write-IsSpread hash cmp n 0 j j fresh (o ∷ c) (omega arith) spread all;
        occurrences = λ q. omega (arith, count-write hash cmp q j fresh c (o ∷ c) at);
        reads = λ q. elim (Bool-cases (same cmp o.key q)) [
          | inl s ↦
              write_own k n fresh o.key c (o ∷ c) j q spread (ap (λ h. h % n) (sym e)) at all s
              ∙ rw s
          | inr s ↦ value-write hash cmp q j fresh c (o ∷ c) at (rw s) ∙ rw s
        ];
        total = omega (arith, length-flatten-write j fresh c (o ∷ c) at);
      }

  pub move_chain-Moved :
      (k : IsKeyed hash cmp) (n : ℕ) (os : Chain) (fresh : List Chain)
      → 0 < n
      → n ≤ int_limit
      → length fresh ≡ n
      → IsSpread hash cmp n 0 fresh
      → AllHashed os
      → ((q : Key) → count hash cmp q os ≤ 1)
      → (fresh' : List Chain) × (move_chain n os fresh ≡ ok fresh') × Moved n os fresh fresh'
  unfolding move_chain
  move_chain-Moved k n [] fresh pos small width spread hashed once = (
    fresh,
    refl,
    record {
      width = refl;
      spread = spread;
      occurrences = λ q. omega arith;
      reads = λ q. refl;
      total = omega arith;
    },
  )
  move_chain-Moved k n (o ∷ os) fresh pos small width spread hashed once =
      let j = o.hash % n in
      let (c, at) = get_elem?-some fresh j (omega (arith, rem-lt n o.hash pos)) in
      let step = push-Moved k n o fresh c spread hashed.0 at in
      let (fresh', run, m) =
        move_chain-Moved k n os (write fresh j (o ∷ c)) pos small (step.width ∙ width) step.spread
          hashed.1 (λ q. omega (arith, once q)) in
      (
        fresh',
        rw
            (
              rem-ok n o.hash pos,
              to_int-ok j (omega (arith, rem-lt n o.hash pos)),
              bucket-ok fresh j c at,
            )
            run,
        record {
          width = m.width ∙ step.width;
          spread = m.spread;
          occurrences = λ q. omega (arith, m.occurrences q, step.occurrences q);
          reads = λ q.
              m.reads q
              ∙ ap (or_else (value hash cmp q os)) (step.reads q)
              ∙ elim (Bool-cases (same cmp o.key q)) [
                | inl s ↦
                    rw (value-none hash cmp q os (omega (arith, once q, ap (λ b. to_nat b) s)), s)
                | inr s ↦ rw s
              ];
          total = omega (arith, m.total, step.total);
        },
      )

  AllHashed-append : (a b : Chain) → AllHashed a → AllHashed b → AllHashed (a ++ b)
  AllHashed-append [] b h k = k
  AllHashed-append (o ∷ a) b h k = (h.0, AllHashed-append a b h.1 k)

  AllHome-AllHashed : (n i : ℕ) (c : Chain) → AllHome hash cmp n i c → AllHashed c
  AllHome-AllHashed n i [] h = tt
  AllHome-AllHashed n i (o ∷ os) h = (h.0, AllHome-AllHashed n i os h.2)

  pub IsSpread-AllHashed :
      (n i : ℕ) (cs : List Chain) → IsSpread hash cmp n i cs → AllHashed (flatten cs)
  unfolding flatten
  IsSpread-AllHashed n i [] h = tt
  IsSpread-AllHashed n i (c ∷ cs) h =
      AllHashed-append c (flatten cs) (AllHome-AllHashed n i c h.0)
        (IsSpread-AllHashed n (suc i) cs h.1)

bind_assoc :
    {A B C : Type 0} (k : A → Run B) (last : B → Run C) (m : Run A)
    → m >>= k >>= last ≡ m >>= (λ x. k x >>= last)
bind_assoc k last fault = refl
bind_assoc k last (ok x) = refl

move_chain-append :
    (n : ℕ) (a b : Chain) (fresh : List Chain)
    → move_chain n (a ++ b) fresh ≡ move_chain n a fresh >>= move_chain n b
unfolding move_chain
move_chain-append n [] b fresh = refl
move_chain-append n (o ∷ a) b fresh = simp (bind_assoc, move_chain-append n a b)

-- the nested loops are one loop over all objects
pub move_all-flatten :
    (n : ℕ) (cs fresh : List Chain) → move_all n cs fresh ≡ move_chain n (flatten cs) fresh
unfolding move_all flatten move_chain
move_all-flatten n [] fresh = refl
move_all-flatten n (c ∷ cs) fresh =
    ap (λ u. move_chain n c fresh >>= u) (fun_ext (move_all-flatten n cs))
    ∙ sym (move_chain-append n c (flatten cs) fresh)
