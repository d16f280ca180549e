-- ===== src/Hash.antt =====
-- hashtable.c: a table of chains. A chain is the list of its objects, whose pointers `next` it stands
-- for. Keys and data are pointers; the hash and the comparison of keys are the table's own fields in
-- the source and arguments here, and `calloc` answers through arguments too.
pub mod Keys
pub mod Chains
pub mod Buckets
pub mod Move
pub mod Grow
pub mod Get
pub mod Init
pub mod Write
pub mod Set
pub mod Lookup
pub mod Iterate
pub mod Strings
pub mod Del
pub mod Arguments
pub mod Main
pub mod Tally
use dsa.Prelude.Int.{ℤ, pos, negsuc, eqb_ℤ}
use dsa.Prelude.{
  ℕ, zero, suc, ◌+◌, ◌-◌, ◌*◌, ◌/◌, ◌%◌, ◌^◌, Bool, true, false, Option, none, some, List, [], ◌∷◌,
  ◌==◌, ltb, if◌then◌else◌, get_elem?, replicate,
}
use dsa.Prelude.{set as write}

-- `const void *` and `void *`
abbrev pub Key : Type 0
Key = ℕ

abbrev pub Datum : Type 0
Datum = ℕ

pub record Obj : Type 0 where
  pub key : Key
  pub hash : ℕ
  pub datum : Datum

abbrev pub Chain : Type 0
Chain = List Obj

pub record Table : Type 0 where
  pub buckets : List Chain
  pub nbuckets : ℕ
  pub nkeys : ℕ

-- the `int` that a function returns: 0 or -ENOMEM
pub data Status : Type 0 where
  done no_memory : Status

-- A fault is a remainder by zero, an index out of the array, or an index that `int` cannot hold.
pub data Run (A : Type 0) : Type 0 where
  fault : Run A
  ok : A → Run A

infixl 5 ◌>>=◌
abbrev pub ◌>>=◌ : {A B : Type 0} → Run A → (A → Run B) → Run B
fault >>= next = fault
ok result >>= next = next result

-- `size_t` and `unsigned`
abbrev pub size_mod : ℕ
size_mod = 2 ^ 64

abbrev pub unsigned_mod : ℕ
unsigned_mod = 2 ^ 32

abbrev pub int_limit : ℕ
int_limit = 2 ^ 31

unfoldable pub rem : ℕ → ℕ → Run ℕ
rem a n = if n == 0 then fault else ok (a % n)

unfoldable pub to_int : ℕ → Run ℕ
to_int a = if ltb a int_limit then ok a else fault

unfoldable pub bucket : List Chain → ℕ → Run Chain
bucket bs i = elim (get_elem? bs i) [ none ↦ fault | some c ↦ ok c ]

-- `hashtable_init`, on a table whose other fields the caller has set
unfoldable pub init : (got : Bool) → Table → ℕ → Table × Status
init got tbl nbuckets =
    if got
    then (record tbl { buckets = replicate nbuckets []; nbuckets = nbuckets }, done)
    else (record tbl { buckets = []; nbuckets = nbuckets }, no_memory)

-- the inner and the outer loop of `hashtable_grow`
unfoldable pub move_chain : ℕ → Chain → List Chain → Run (List Chain)
move_chain n [] fresh = ok fresh
move_chain n (o ∷ os) fresh = do
  r ← rem o.hash n
  j ← to_int r
  c ← bucket fresh j
  move_chain n os (write fresh j (o ∷ c))

unfoldable pub move_all : ℕ → List Chain → List Chain → Run (List Chain)
unfolding move_chain
move_all n [] fresh = ok fresh
move_all n (c ∷ cs) fresh = move_chain n c fresh >>= move_all n cs

unfoldable pub grow : (got : Bool) → Table → Run (Table × Status)
unfolding move_all
grow got tbl =
    let n = tbl.nbuckets * 2 % size_mod in
    if got
    then (do
      fresh ← move_all n tbl.buckets (replicate n [])
      ok (record tbl { buckets = fresh; nbuckets = n }, done))
    else ok (tbl, no_memory)

module _ (hash : Key → ℕ) (cmp : Key → Key → ℤ) where
  -- `!tbl->cmp(key, q)`
  abbrev pub matches : Key → Obj → Bool
  matches q o = eqb_ℤ (cmp o.key q) (pos 0)

  -- the first object that matches
  abbrev pub find : Key → Chain → Option Obj
  find q [] = none
  find q (o ∷ os) = if matches q o then some o else find q os

  -- `o->data = data` there
  abbrev pub assign : Key → Datum → Chain → Chain
  assign q v [] = []
  assign q v (o ∷ os) = if matches q o then record o { datum = v } ∷ os else o ∷ assign q v os

  -- unlinking it from the chain
  abbrev pub unlink : Key → Chain → Chain
  unlink q [] = []
  unlink q (o ∷ os) = if matches q o then os else o ∷ unlink q os

  -- the test at the end of `hashtable_set`, and the growth, whose failure is ignored
  unfoldable pub make_room : (got : Bool) → Table → Run Table
  make_room got tbl =
      if ltb 110 (tbl.nkeys * 100 % size_mod / tbl.nbuckets)
      then (do (tbl', _) ← grow got tbl; ok tbl')
      else ok tbl

  unfoldable pub set : (got_obj got_buckets : Bool) → Table → Key → Datum → Run (Table × Status)
  unfolding make_room
  set got_obj got_buckets tbl key v = do
    i ← rem (hash key) tbl.nbuckets
    c ← bucket tbl.buckets i
    elim (find key c) [
      | some o ↦ ok (record tbl { buckets = write tbl.buckets i (assign key v c) }, done)
      | none ↦
          if got_obj
          then (do
            let o : Obj = record { key = key; hash = hash key; datum = v }
            tbl' ← make_room got_buckets (record tbl {
              buckets = write tbl.buckets i (o ∷ c);
              nkeys = (tbl.nkeys + 1) % size_mod;
            })
            ok (tbl', done))
          else ok (tbl, no_memory)
    ]

  -- NULL is 0
  unfoldable pub get : Table → Key → Run Datum
  get tbl key = do
    i ← rem (hash key) tbl.nbuckets
    c ← bucket tbl.buckets i
    ok (elim (find key c) [ some o ↦ o.datum | none ↦ 0 ])

  -- `slot` is the argument, the address of a variable that holds `key`. The chain is that of
  -- `*slot`, and the comparison is with `slot`. The results are the value returned, the variable's
  -- new value and the table.
  unfoldable pub del : Table → (slot key : Key) → Run (Datum × Key × Table)
  del tbl slot key = do
    i ← rem (hash key) tbl.nbuckets
    c ← bucket tbl.buckets i
    ok (elim (find slot c) [
      | some o ↦ (
        o.datum,
        o.key,
        record tbl {
          buckets = write tbl.buckets i (unlink slot c);
          nkeys = (tbl.nkeys + size_mod - 1) % size_mod;
        },
      )
      | none ↦ (0, key, tbl)
    ])
