-- ===== src/Hash/Write.antt =====
-- A write of one chain of the array, as an update of the map that the table stands for.
use dsa.Hash.Buckets.{
  AllHome, AllHome-bucket, write-IsSpread, count-write, value-write, length-flatten-write,
}
use dsa.Hash.Chains.{
  value, count, find-none, count_congr, value-assign, count-assign, length-assign,
}
use dsa.Hash.Get.{locate, own}
use dsa.Hash.Grow.{IsValid, view}
use dsa.Hash.Keys.{IsKeyed, same}
use dsa.Hash.Move.{write_own}
use dsa.Hash.{unlink, Key, Datum, Obj, Chain, Table, find, assign}
use dsa.Prelude.Int.{ℤ}
use dsa.Prelude.{
  sym, subst, ap, get_elem?, some-eq, ℕ, ◌+◌, ◌%◌, ◌≤◌, ◌≡◌, refl, ◌∙◌, inl, inr, true, false,
  Bool-cases, Option, none, some, [], ◌∷◌, length, length-set, if◌then◌else◌, arith,
}
use dsa.Prelude.{set as write}
use mathlib.Core.List.{flatten}

module _ (hash : Key → ℕ) (cmp : Key → Key → ℤ) where
  -- the table after a write of one chain
  pub record Wrote (tbl tbl' : Table) (key : Key) (new : Option Datum) : Type 0 where
    pub valid : IsValid hash cmp tbl'
    pub reads :
        (q : Key) → view hash cmp tbl' q ≡ (if same cmp key q then new else view hash cmp tbl q)

  -- replacing the chain of a key's bucket: the conditions on the new chain
  pub write-Wrote :
      (k : IsKeyed hash cmp) (tbl : Table) (key : Key) (v : IsValid hash cmp tbl) (i : ℕ)
      (c d : Chain) (nkeys : ℕ) (new : Option Datum)
      → hash key % tbl.nbuckets ≡ i
      → get_elem? tbl.buckets i ≡ some c
      → AllHome hash cmp tbl.nbuckets i d
      → ((q : Key)
          → count hash cmp q (flatten tbl.buckets) + count hash cmp q d ≤ 1 + count hash cmp q c)
      → length (flatten tbl.buckets) + length d ≡ nkeys + length c
      → ((q : Key) → same cmp key q ≡ true → value hash cmp q d ≡ new)
      → ((q : Key) → same cmp key q ≡ false → value hash cmp q d ≡ value hash cmp q c)
      → Wrote tbl (record tbl { buckets = write tbl.buckets i d; nkeys = nkeys }) key new
  write-Wrote k tbl key v i c d nkeys new place at home once total own_value others =
      let n = tbl.nbuckets in
      let bs = tbl.buckets in
      record {
        valid = record {
          width = length-set bs i d ∙ v.width;
          some_bucket = v.some_bucket;
          small = v.small;
          spread = write-IsSpread hash cmp n 0 i i bs d (omega arith) v.spread home;
          once = λ q. omega (arith, once q, count-write hash cmp q i bs c d at);
          counted = omega (arith, total, length-flatten-write i bs c d at);
        };
        reads = λ q. elim (Bool-cases (same cmp key q)) [
          | inl e ↦
              write_own hash cmp k n bs key c d i q v.spread place at home e ∙ own_value q e ∙ rw e
          | inr e ↦ value-write hash cmp q i bs c d at (others q e) ∙ rw e
        ];
      }

  AllHome-assign :
      (key : Key) (x : Datum) (n i : ℕ) (c : Chain)
      → AllHome hash cmp n i c
      → AllHome hash cmp n i (assign hash cmp key x c)
  AllHome-assign key x n i [] h = tt
  AllHome-assign key x n i (o ∷ os) h = elim (Bool-cases (same cmp o.key key)) [
    | inl e ↦ rw e h
    | inr e ↦ rw e (h.0, h.1, AllHome-assign key x n i os h.2)
  ]

  pub AllHome-unlink :
      (key : Key) (n i : ℕ) (c : Chain)
      → AllHome hash cmp n i c
      → AllHome hash cmp n i (unlink hash cmp key c)
  AllHome-unlink key n i [] h = tt
  AllHome-unlink key n i (o ∷ os) h = elim (Bool-cases (same cmp o.key key)) [
    | inl e ↦ rw e h.2
    | inr e ↦ rw e (h.0, h.1, AllHome-unlink key n i os h.2)
  ]

  -- an object that was found is in its bucket, under a key equal to the one sought
  pub find-home :
      (key : Key) (n i : ℕ) (c : Chain) (o : Obj)
      → AllHome hash cmp n i c
      → find hash cmp key c ≡ some o
      → (same cmp o.key key ≡ true) × (hash o.key % n ≡ i)
  find-home key n i [] o h e = cc
  find-home key n i (p ∷ ps) o h e = elim (Bool-cases (same cmp p.key key)) [
    | inl s ↦
        let q : p ≡ o = some-eq (sym (rw s) ∙ e) in
        (
          subst (λ y. same cmp y.key key ≡ true) q s,
          subst (λ y. hash y.key % n ≡ i) q (ap (λ z. z % n) (sym h.0) ∙ h.1),
        )
    | inr s ↦ find-home key n i ps o h.2 (sym (rw s) ∙ e)
  ]

  -- the key is there: its object gets the new datum, and keeps its old key
  pub assign-Wrote :
      (k : IsKeyed hash cmp) (tbl : Table) (key : Key) (v : IsValid hash cmp tbl) (x : Datum)
      (o : Obj)
      → let l = locate hash cmp tbl key v in
        find hash cmp key l.chain ≡ some o
        → Wrote tbl
            (record tbl {
              buckets = write tbl.buckets (hash key % tbl.nbuckets) (assign hash cmp key x l.chain);
            })
            key
            (some x)
  assign-Wrote k tbl key v x o e =
      let l = locate hash cmp tbl key v in
      let i = hash key % tbl.nbuckets in
      let reads = λ (q : Key). value-assign hash cmp k key q x l.chain o e in
      write-Wrote k tbl key v i l.chain (assign hash cmp key x l.chain) tbl.nkeys (some x) refl l.at
        (AllHome-assign key x tbl.nbuckets i l.chain (
          AllHome-bucket hash cmp tbl.nbuckets 0 i i tbl.buckets l.chain (omega arith) v.spread
            l.at))
        (λ q. omega (arith, count-assign hash cmp k key q x l.chain, v.once q))
        (omega (arith, length-assign hash cmp key x l.chain, v.counted)) (λ q s. reads q ∙ rw s)
        (λ q s. reads q ∙ rw s)

  -- the key is not there: a new object in front of the chain
  pub push-Wrote :
      (k : IsKeyed hash cmp) (tbl : Table) (key : Key) (v : IsValid hash cmp tbl) (x : Datum)
      → let l = locate hash cmp tbl key v in
        let o : Obj = record { key = key; hash = hash key; datum = x } in
        find hash cmp key l.chain ≡ none
        → Wrote tbl
            (record tbl {
              buckets = write tbl.buckets (hash key % tbl.nbuckets) (o ∷ l.chain);
              nkeys = tbl.nkeys + 1;
            })
            key
            (some x)
  push-Wrote k tbl key v x e =
      let l = locate hash cmp tbl key v in
      let o : Obj = record { key = key; hash = hash key; datum = x } in
      let i = hash key % tbl.nbuckets in
      let gone : count hash cmp key (flatten tbl.buckets) ≡ 0 =
        omega (arith, (own hash cmp k tbl key v).occurrences, find-none hash cmp key l.chain e) in
      write-Wrote k tbl key v i l.chain (o ∷ l.chain) (tbl.nkeys + 1) (some x) refl l.at
        (
          refl,
          refl,
          AllHome-bucket hash cmp tbl.nbuckets 0 i i tbl.buckets l.chain (omega arith) v.spread
              l.at,
        )
        (λ q. elim (Bool-cases (same cmp key q)) [
          | inl s ↦ rw s (omega (arith, count_congr hash cmp k key q (flatten tbl.buckets) s, gone))
          | inr s ↦ rw s (omega (arith, v.once q))
        ])
        (omega (arith, v.counted)) (λ q s. rw s) (λ q s. rw s)
