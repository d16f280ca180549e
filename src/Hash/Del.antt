-- ===== src/Hash/Del.antt =====
-- `hashtable_del`, which looks for its own argument, the address of the caller's variable, among the
-- keys in the bucket of the key that the variable holds.
use dsa.Hash.Buckets.{AllHome-bucket, bucket-IsOwn, length-flatten-write}
use dsa.Hash.Chains.{count, value-unlink, count-unlink, length-unlink, datum_of}
use dsa.Hash.Get.{locate}
use dsa.Hash.Grow.{IsValid, view}
use dsa.Hash.Keys.{IsKeyed, same}
use dsa.Hash.Write.{Wrote, write-Wrote, AllHome-unlink, find-home}
use dsa.Hash.{Key, Datum, Obj, Table, ok, ◌>>=◌, find, unlink, del, size_mod}
use dsa.Prelude.Int.{ℤ}
use dsa.Prelude.{
  ℕ, ◌+◌, ◌-◌, ◌%◌, ◌≤◌, ◌<◌, ◌≡◌, refl, sym, subst, ◌∙◌, ap, inl, inr, true, false, ◌⊎◌,
  Option-cases, Bool-cases, ◌==◌, ==→eq, ==→ne, none, some, [], arith,
}
use dsa.Prelude.{set as write}

pred_fits : (n : ℕ) → 0 < n → n < size_mod → (n + size_mod - 1) % size_mod ≡ n - 1
pred_fits n h few = omega arith

module _ (hash : Key → ℕ) (cmp : Key → Key → ℤ) where
  -- nothing is done, or the object of the key `slot` is gone
  pub record Removed (tbl : Table) (slot : Key) (d : Datum) (key' : Key) (tbl' : Table)
      : Type 0 where
    pub wrote : Wrote hash cmp tbl tbl' slot none
    pub datum : some d ≡ view hash cmp tbl slot
    pub key : same cmp key' slot ≡ true
    pub nkeys : tbl'.nkeys + 1 ≡ tbl.nkeys

  -- the argument itself, taken for a key, belongs into the bucket of the key that the variable holds
  abbrev pub IsNear : Table → Key → Key → Type 0
  IsNear tbl slot key = hash slot % tbl.nbuckets ≡ hash key % tbl.nbuckets

  -- Nothing is done where the table holds nothing under the argument itself, or that belongs into another bucket; else an object is
  -- gone.
  abbrev pub Outcome : Table → Key → Key → Datum × Key × Table → Type 0
  Outcome tbl slot key (d, key', tbl') =
      (((view hash cmp tbl slot ≡ none) ⊎ ¬ IsNear tbl slot key)
        × (d ≡ 0)
        × (key' ≡ key)
        × (tbl' ≡ tbl))
      ⊎ (IsNear tbl slot key × Removed tbl slot d key' tbl')

  -- an equal key in the bucket says that the argument itself belongs there
  found-IsNear :
      (k : IsKeyed hash cmp) (tbl : Table) (slot key : Key) (v : IsValid hash cmp tbl) (o : Obj)
      → find hash cmp slot (locate hash cmp tbl key v).chain ≡ some o
      → IsNear tbl slot key
  found-IsNear k tbl slot key v o e =
      let l = locate hash cmp tbl key v in
      let n = tbl.nbuckets in
      let i = hash key % n in
      let all = AllHome-bucket hash cmp n 0 i i tbl.buckets l.chain (omega arith) v.spread l.at in
      let (s, home) = find-home hash cmp slot n i l.chain o all e in
      ap (λ h. h % n) (sym (k.same_hash o.key slot s)) ∙ home

  -- and without one the table holds nothing under it, or it belongs elsewhere
  missing-IsNear :
      (k : IsKeyed hash cmp) (tbl : Table) (slot key : Key) (v : IsValid hash cmp tbl)
      → find hash cmp slot (locate hash cmp tbl key v).chain ≡ none
      → (view hash cmp tbl slot ≡ none) ⊎ ¬ IsNear tbl slot key
  missing-IsNear k tbl slot key v e =
      let l = locate hash cmp tbl key v in
      let n = tbl.nbuckets in
      elim (Bool-cases (hash slot % n == hash key % n)) [
        | inl near ↦
            let mine =
              bucket-IsOwn hash cmp k slot n 0 (hash key % n) tbl.buckets l.chain v.spread
                (omega (arith, ==→eq near)) l.at in
            inl (mine.reads ∙ ap datum_of e)
        | inr far ↦ inr (==→ne far)
      ]

  unlink-Removed :
      (k : IsKeyed hash cmp) (tbl : Table) (slot key : Key) (v : IsValid hash cmp tbl) (o : Obj)
      → find hash cmp slot (locate hash cmp tbl key v).chain ≡ some o
      → tbl.nkeys < size_mod
      → Removed tbl slot o.datum o.key (record tbl {
        buckets =
            write tbl.buckets
              (hash key % tbl.nbuckets)
              (unlink hash cmp slot (locate hash cmp tbl key v).chain);
        nkeys = (tbl.nkeys + size_mod - 1) % size_mod;
      })
  unlink-Removed k tbl slot key v o e few =
      let l = locate hash cmp tbl key v in
      let n = tbl.nbuckets in
      let i = hash key % n in
      let all = AllHome-bucket hash cmp n 0 i i tbl.buckets l.chain (omega arith) v.spread l.at in
      let (s, home) = find-home hash cmp slot n i l.chain o all e in
      let slot_home = found-IsNear k tbl slot key v o e in
      let mine =
        bucket-IsOwn hash cmp k slot n 0 i tbl.buckets l.chain v.spread (omega (arith, slot_home))
          l.at in
      let once : count hash cmp slot l.chain ≤ 1 = omega (arith, mine.occurrences, v.once slot) in
      let gone = length-unlink hash cmp slot l.chain o e in
      let some_key : 0 < tbl.nkeys =
        omega (arith, v.counted, gone, length-flatten-write i tbl.buckets l.chain [] l.at) in
      let reads = λ (q : Key). value-unlink hash cmp k slot q l.chain once in
      let less = pred_fits tbl.nkeys some_key few in
      record {
        wrote =
            write-Wrote hash cmp k tbl slot v i l.chain (unlink hash cmp slot l.chain)
              ((tbl.nkeys + size_mod - 1) % size_mod) none slot_home l.at
              (AllHome-unlink hash cmp slot n i l.chain all)
              (λ q. omega (arith, v.once q, count-unlink hash cmp k slot q l.chain))
              (omega (arith, v.counted, gone, less, some_key)) (λ q e. reads q ∙ rw e)
              (λ q e. reads q ∙ rw e);
        datum = sym (mine.reads ∙ ap datum_of e);
        key = s;
        nkeys = omega (arith, less, some_key);
      }

  pub del-Outcome :
      (k : IsKeyed hash cmp) (tbl : Table) (slot key : Key)
      → IsValid hash cmp tbl
      → tbl.nkeys < size_mod
      → (r : Datum × Key × Table) × (del hash cmp tbl slot key ≡ ok r) × Outcome tbl slot key r
  unfolding del
  del-Outcome k tbl slot key v few =
      let l = locate hash cmp tbl key v in
      elim (Option-cases (find hash cmp slot l.chain)) [
        | inl e ↦ (
          _,
          rw (l.slot, l.loaded, ◌>>=◌, e),
          inl (missing-IsNear k tbl slot key v e, refl, refl, refl),
        )
        | inr (o, e) ↦ (
          _,
          rw (l.slot, l.loaded, ◌>>=◌, e),
          inr (found-IsNear k tbl slot key v o e, unlink-Removed k tbl slot key v o e few),
        )
      ]

  Outcome-keeps :
      (k : IsKeyed hash cmp) (tbl : Table) (slot key : Key) (d : Datum) (key' : Key) (tbl' : Table)
      → IsValid hash cmp tbl
      → same cmp slot key ≡ false
      → Outcome tbl slot key (d, key', tbl')
      → IsValid hash cmp tbl' × (view hash cmp tbl' key ≡ view hash cmp tbl key)
  Outcome-keeps k tbl slot key d key' tbl' v ne (inl (_, _, _, e)) =
      (subst (IsValid hash cmp) (sym e) v, ap (λ t. view hash cmp t key) e)
  Outcome-keeps k tbl slot key d key' tbl' v ne (inr (_, r)) =
      (r.wrote.valid, r.wrote.reads key ∙ rw ne)

  -- where the comparison tells the argument, an address, from the key stored at that address,
  -- `hashtable_del` does not remove that key: the table holds the same datum under it as before
  pub del-keeps :
      (k : IsKeyed hash cmp) (tbl : Table) (slot key : Key)
      → IsValid hash cmp tbl
      → tbl.nkeys < size_mod
      → same cmp slot key ≡ false
      → (r : Datum × Key × Table) × (del hash cmp tbl slot key ≡ ok r)
        × IsValid hash cmp r.2
        × (view hash cmp r.2 key ≡ view hash cmp tbl key)
  del-keeps k tbl slot key v few ne =
      let ((d, key', tbl'), run, o) = del-Outcome k tbl slot key v few in
      let kept = Outcome-keeps k tbl slot key d key' tbl' v ne o in
      ((d, key', tbl'), run, kept.0, kept.1)
