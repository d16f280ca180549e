-- ===== src/Hash/Set.antt =====
-- `hashtable_set` as an operation on the map that the table stands for.
use dsa.Hash.Chains.{datum_of}
use dsa.Hash.Get.{locate, own, found}
use dsa.Hash.Write.{assign-Wrote, push-Wrote}
use dsa.Hash.Grow.{IsValid, view, grow-Grown, grow-false}
use dsa.Hash.Keys.{IsKeyed, same}
use dsa.Hash.{
  Key, Datum, Obj, Table, done, no_memory, ok, ◌>>=◌, size_mod, int_limit, find, assign, make_room,
  set,
}
use dsa.Prelude.Int.{ℤ}
use dsa.Prelude.{
  ℕ, ◌+◌, ◌*◌, ◌/◌, ◌%◌, ◌≤◌, ◌<◌, ◌≡◌, ◌⊎◌, subst, refl, sym, ◌∙◌, ap, inl, inr, Bool, true, false,
  Bool-cases, Option-cases, Option, none, some, ◌∷◌, if◌then◌else◌, ltb, arith,
}
use dsa.Prelude.{set as write}

load_bound : (a n : ℕ) → 0 < n → a < n * 111 → a / n ≤ 110
load_bound a n pos h = grind arith

div_over : (a n : ℕ) → 0 < n → 110 < a / n → n * 110 < a
div_over a n pos h = grind arith

over_lt : (a n : ℕ) → ltb 110 (a / n) ≡ true → 0 < n → n * 110 < a
over_lt a n h pos = div_over a n pos (ground (arith, h))

load_lt : (a n : ℕ) → 0 < n → a / n ≤ 110 → a < n * 111
load_lt a n pos h = grind arith

not_over : (n a : ℕ) → ltb 110 (a / n) ≡ false → a / n ≤ 110
not_over n a h = ground arith

datum-none : (o : Option Obj) → datum_of o ≡ none → o ≡ none
datum-none none h = refl
datum-none (some o) h = cc

module _ (hash : Key → ℕ) (cmp : Key → Key → ℤ) where
  -- a table has as many buckets as another, or twice as many if there were fewer buckets than `keys`
  abbrev Wider : (keys : ℕ) → Table → Table → Type 0
  Wider keys tbl tbl' =
      (tbl'.nbuckets ≡ tbl.nbuckets) ⊎ ((tbl'.nbuckets ≡ tbl.nbuckets * 2) × (tbl.nbuckets < keys))

  -- the growth at the end of `hashtable_set` changes neither the keys nor the values
  pub record Roomy (tbl : Table) (tbl' : Table) : Type 0 where
    pub valid : IsValid hash cmp tbl'
    pub nkeys : tbl'.nkeys ≡ tbl.nkeys
    pub reads : (q : Key) → view hash cmp tbl' q ≡ view hash cmp tbl q
    pub width : Wider tbl.nkeys tbl tbl'

  make_room-Roomy :
      (k : IsKeyed hash cmp) (g : Bool) (tbl : Table)
      → IsValid hash cmp tbl
      → tbl.nbuckets * 2 ≤ int_limit
      → (tbl' : Table) × (make_room hash cmp g tbl ≡ ok tbl') × Roomy tbl tbl'
  unfolding make_room
  make_room-Roomy k g tbl v small =
      let keep : Roomy tbl tbl = record {
        valid = v;
        nkeys = refl;
        reads = λ q. refl;
        width = inl refl;
      } in
      elim (Bool-cases (ltb 110 (tbl.nkeys * 100 % size_mod / tbl.nbuckets))) [
        | inr e ↦ (tbl, rw e, keep)
        | inl e ↦ elim (Bool-cases g) [
          | inr f ↦ (tbl, rw (e, f, grow-false tbl), keep)
          | inl f ↦
              let (tbl', run, r) = grow-Grown hash cmp k tbl v small in
              (
                tbl',
                rw (e, f, run),
                record {
                  valid = r.valid;
                  nkeys = r.nkeys;
                  reads = r.reads;
                  width = inr (
                    r.doubled,
                    omega
                        (arith, over_lt (tbl.nkeys * 100 % size_mod) tbl.nbuckets e v.some_bucket),
                  );
                },
              )
        ]
      ]

  -- after a successful growth the load is below the bound that triggers it
  make_room-load :
      (k : IsKeyed hash cmp) (tbl : Table)
      → IsValid hash cmp tbl
      → tbl.nbuckets * 2 ≤ int_limit
      → tbl.nkeys * 100 < tbl.nbuckets * 211
      → (tbl' : Table) × (make_room hash cmp true tbl ≡ ok tbl')
        × (tbl'.nkeys * 100 / tbl'.nbuckets ≤ 110)
  unfolding make_room
  make_room-load k tbl v small few =
      let n = tbl.nbuckets in
      let fits : tbl.nkeys * 100 % size_mod ≡ tbl.nkeys * 100 = omega (arith, v.small) in
      elim (Bool-cases (ltb 110 (tbl.nkeys * 100 / n))) [
        | inr e ↦ (tbl, rw (fits, e), not_over n (tbl.nkeys * 100) e)
        | inl e ↦
            let (tbl', run, r) = grow-Grown hash cmp k tbl v small in
            (
              tbl',
              rw (fits, e, run),
              load_bound (tbl'.nkeys * 100) tbl'.nbuckets (omega (arith, r.valid.some_bucket))
                  (omega (arith, r.nkeys, r.doubled, few)),
            )
      ]

  module _ (k : IsKeyed hash cmp) (tbl : Table) (key : Key) (v : IsValid hash cmp tbl)
      (x : Datum) where
    -- the table with a new object, before the growth
    abbrev pushed : Table
    pushed =
        let o : Obj = record { key = key; hash = hash key; datum = x } in
        record tbl {
          buckets =
              write tbl.buckets (hash key % tbl.nbuckets) (o ∷ (locate hash cmp tbl key v).chain);
          nkeys = tbl.nkeys + 1;
        }

    set-push :
        (g : Bool)
        → tbl.nkeys + 1 < size_mod
        → find hash cmp key (locate hash cmp tbl key v).chain ≡ none
        → set hash cmp true g tbl key x ≡ make_room hash cmp g pushed >>= (λ t. ok (t, done))
    unfolding set
    set-push g few e =
        let l = locate hash cmp tbl key v in
        let fits : (tbl.nkeys + 1) % size_mod ≡ tbl.nkeys + 1 = omega arith in
        rw (l.slot, l.loaded, ◌>>=◌, e, fits)

    set-assign :
        (g₁ g₂ : Bool) (o : Obj)
        → find hash cmp key (locate hash cmp tbl key v).chain ≡ some o
        → set hash cmp g₁ g₂ tbl key x
          ≡ ok (
            record tbl {
              buckets =
                  write tbl.buckets
                    (hash key % tbl.nbuckets)
                    (assign hash cmp key x (locate hash cmp tbl key v).chain);
            },
            done,
          )
    unfolding set
    set-assign g₁ g₂ o e = let l = locate hash cmp tbl key v in rw (l.slot, l.loaded, ◌>>=◌, e)

  -- the table after `hashtable_set`
  pub record Stored (tbl : Table) (key : Key) (x : Datum) (tbl' : Table) : Type 0 where
    pub valid : IsValid hash cmp tbl'
    pub reads :
        (q : Key) → view hash cmp tbl' q ≡ (if same cmp key q then some x else view hash cmp tbl q)
    pub nkeys : tbl'.nkeys + found (view hash cmp tbl key) ≡ tbl.nkeys + 1
    pub width : Wider tbl'.nkeys tbl tbl'

  -- on a valid table of at most 2^30 buckets, with memory for an object, `hashtable_set` returns 0, whether or not the array can grow; the table
  -- stays valid, holds the datum under the key and all others as before, and counts a new key
  pub set-Stored :
      (k : IsKeyed hash cmp) (g : Bool) (tbl : Table) (key : Key) (x : Datum)
      → IsValid hash cmp tbl
      → tbl.nbuckets * 2 ≤ int_limit
      → tbl.nkeys + 1 < size_mod
      → (tbl' : Table) × (set hash cmp true g tbl key x ≡ ok (tbl', done)) × Stored tbl key x tbl'
  set-Stored k g tbl key x v small few =
      let l = locate hash cmp tbl key v in
      let o = own hash cmp k tbl key v in
      elim (Option-cases (find hash cmp key l.chain)) [
        | inl e ↦
            let w = push-Wrote hash cmp k tbl key v x e in
            let (tbl', run, r) = make_room-Roomy k g (pushed k tbl key v x) w.valid small in
            (
              tbl',
              set-push k tbl key v x g few e ∙ ap (λ m. m >>= (λ t. ok (t, done))) run,
              record {
                valid = r.valid;
                reads = λ q. r.reads q ∙ w.reads q;
                nkeys = omega (arith, r.nkeys, ap found (o.reads ∙ ap datum_of e));
                width = subst (λ n. Wider n tbl tbl') (sym r.nkeys) r.width;
              },
            )
        | inr (p, e) ↦
            let w = assign-Wrote hash cmp k tbl key v x p e in
            (
              _,
              set-assign k tbl key v x true g p e,
              record {
                valid = w.valid;
                reads = w.reads;
                nkeys = omega (arith, ap found (o.reads ∙ ap datum_of e));
                width = inl refl;
              },
            )
      ]

  -- for a key that the table holds, `hashtable_set` needs no memory for an object
  pub set-present :
      (k : IsKeyed hash cmp) (g₁ g₂ : Bool) (tbl : Table) (key : Key) (x d : Datum)
      → IsValid hash cmp tbl
      → view hash cmp tbl key ≡ some d
      → set hash cmp g₁ g₂ tbl key x ≡ set hash cmp true g₂ tbl key x
  set-present k g₁ g₂ tbl key x d v held =
      let l = locate hash cmp tbl key v in
      elim (Option-cases (find hash cmp key l.chain)) [
        | inl e ↦
            let o = own hash cmp k tbl key v in let z = sym held ∙ o.reads ∙ ap datum_of e in cc
        | inr (p, e) ↦
            set-assign k tbl key v x g₁ g₂ p e ∙ sym (set-assign k tbl key v x true g₂ p e)
      ]

  -- without memory for an object a new key is refused with -ENOMEM, and the table is unchanged
  pub set-no_memory :
      (k : IsKeyed hash cmp) (g : Bool) (tbl : Table) (key : Key) (x : Datum)
      → IsValid hash cmp tbl
      → view hash cmp tbl key ≡ none
      → set hash cmp false g tbl key x ≡ ok (tbl, no_memory)
  unfolding set
  set-no_memory k g tbl key x v absent =
      let l = locate hash cmp tbl key v in
      let e =
        datum-none (find hash cmp key l.chain) (sym (own hash cmp k tbl key v).reads ∙ absent) in
      rw (l.slot, l.loaded, ◌>>=◌, e)

  -- where both allocations succeed, on a valid table of at most 2^30 buckets: if the keys in per cent of the buckets, rounded
  -- down as the source does, are at most 110, they are so after `hashtable_set`, which returns 0
  pub set-load :
      (k : IsKeyed hash cmp) (tbl : Table) (key : Key) (x : Datum)
      → IsValid hash cmp tbl
      → tbl.nbuckets * 2 ≤ int_limit
      → tbl.nkeys * 100 / tbl.nbuckets ≤ 110
      → (tbl' : Table) × (set hash cmp true true tbl key x ≡ ok (tbl', done))
        × (tbl'.nkeys * 100 / tbl'.nbuckets ≤ 110)
  set-load k tbl key x v small load =
      let l = locate hash cmp tbl key v in
      let bound = load_lt (tbl.nkeys * 100) tbl.nbuckets v.some_bucket load in
      elim (Option-cases (find hash cmp key l.chain)) [
        | inl e ↦
            let w = push-Wrote hash cmp k tbl key v x e in
            let (tbl', run, r) =
              make_room-load k (pushed k tbl key v x) w.valid small
                (omega (arith, bound, v.some_bucket)) in
            (
              tbl',
              set-push k tbl key v x true (omega (arith, bound, small)) e
                  ∙ ap (λ m. m >>= (λ t. ok (t, done))) run,
              r,
            )
        | inr (p, e) ↦ (_, set-assign k tbl key v x true true p e, load)
      ]
