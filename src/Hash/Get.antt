-- ===== src/Hash/Get.antt =====
-- `hashtable_get`: the chain of a key, and what is read there.
use dsa.Hash.Buckets.{IsOwn, bucket-IsOwn}
use dsa.Hash.Chains.{datum_of, value}
use dsa.Hash.Grow.{IsValid, view}
use dsa.Hash.Keys.{IsKeyed, same}
use dsa.Hash.Move.{rem-lt, rem-ok, bucket-ok}
use dsa.Hash.{Key, Datum, Obj, Chain, Table, ok, rem, bucket, find, get}
use mathlib.Core.List.{flatten}
use dsa.Prelude.Int.{ℤ}
use dsa.Prelude.{
  ℕ, ◌%◌, ◌≡◌, refl, sym, ◌∙◌, ap, inl, inr, Bool-cases, true, false, Option, none, some, [], ◌∷◌,
  get_elem?, get_elem?-some, arith,
}

-- the chain of a key
pub record Located (hash : Key → ℕ) (tbl : Table) (key : Key) : Type 0 where
  pub chain : Chain
  pub at : get_elem? tbl.buckets (hash key % tbl.nbuckets) ≡ some chain
  pub slot : rem (hash key) tbl.nbuckets ≡ ok (hash key % tbl.nbuckets)
  pub loaded : bucket tbl.buckets (hash key % tbl.nbuckets) ≡ ok chain

-- the datum, or NULL
abbrev pub or_null : Option Datum → Datum
or_null none = 0
or_null (some d) = d

or_null-datum_of : (o : Option Obj) → elim o [ some x ↦ x.datum | none ↦ 0 ] ≡ or_null (datum_of o)
or_null-datum_of none = refl
or_null-datum_of (some o) = refl

abbrev pub found : Option Datum → ℕ
found none = 0
found (some _) = 1

-- the datum of the first object with an equal key, or none if no object has one
pub data Holds (cmp : Key → Key → ℤ) (q : Key) : Chain → Option Datum → Type 0 where
  nothing : Holds cmp q [] none
  here : {o : Obj} (os : Chain) → same cmp o.key q ≡ true → Holds cmp q (o ∷ os) (some o.datum)
  later :
      (o : Obj) {os : Chain} {d : Option Datum}
      → same cmp o.key q ≡ false
      → Holds cmp q os d
      → Holds cmp q (o ∷ os) d

module _ (hash : Key → ℕ) (cmp : Key → Key → ℤ) where
  pub locate : (tbl : Table) (key : Key) → IsValid hash cmp tbl → Located hash tbl key
  locate tbl key v =
      let i = hash key % tbl.nbuckets in
      let (c, at) =
        get_elem?-some tbl.buckets i
          (omega (arith, v.width, rem-lt tbl.nbuckets (hash key) v.some_bucket)) in
      record {
        chain = c;
        at = at;
        slot = rem-ok tbl.nbuckets (hash key) v.some_bucket;
        loaded = bucket-ok tbl.buckets i c at;
      }

  pub own :
      (k : IsKeyed hash cmp) (tbl : Table) (key : Key) (v : IsValid hash cmp tbl)
      → IsOwn hash cmp key tbl.buckets (locate tbl key v).chain
  own k tbl key v =
      let l = locate tbl key v in
      bucket-IsOwn hash cmp k key tbl.nbuckets 0 (hash key % tbl.nbuckets) tbl.buckets l.chain
        v.spread (omega arith) l.at

  value-Holds : (q : Key) (c : Chain) → Holds cmp q c (value hash cmp q c)
  value-Holds q [] = nothing
  value-Holds q (o ∷ os) = elim (Bool-cases (same cmp o.key q)) [
    | inl e ↦ rw e (here os e)
    | inr e ↦ rw e (later o e (value-Holds q os))
  ]

  -- `hashtable_get` returns the view of the table under the key, and NULL if there is nothing
  pub get-view :
      (k : IsKeyed hash cmp) (tbl : Table) (key : Key)
      → IsValid hash cmp tbl
      → get hash cmp tbl key ≡ ok (or_null (view hash cmp tbl key))
  unfolding get
  get-view k tbl key v =
      let l = locate tbl key v in
      rw (l.slot, l.loaded)
        (ap ok
          (or_null-datum_of (find hash cmp key l.chain) ∙ ap or_null (sym (own k tbl key v).reads)))

  -- `hashtable_get` on a valid table returns the datum of an object of any chain whose key is equal to the one given, and NULL
  -- if there is no such object; that is the view of the table under the key
  pub get-Holds :
      (k : IsKeyed hash cmp) (tbl : Table) (key : Key)
      → IsValid hash cmp tbl
      → (d : Option Datum) × Holds cmp key (flatten tbl.buckets) d
        × (view hash cmp tbl key ≡ d)
        × (get hash cmp tbl key ≡ ok (or_null d))
  get-Holds k tbl key v =
      (view hash cmp tbl key, value-Holds key (flatten tbl.buckets), refl, get-view k tbl key v)
