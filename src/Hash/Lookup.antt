-- ===== src/Hash/Lookup.antt =====
-- `hashtable_set` and then `hashtable_get`.
use dsa.Hash.Get.{or_null, get-view}
use dsa.Hash.Grow.{IsValid, view}
use dsa.Hash.Keys.{IsKeyed, same}
use dsa.Hash.Set.{set-Stored}
use dsa.Hash.{Key, Datum, Table, ok, ◌>>=◌, size_mod, int_limit, set, get}
use dsa.Prelude.Int.{ℤ}
use dsa.Prelude.{ℕ, ◌+◌, ◌*◌, ◌≤◌, ◌<◌, ◌≡◌, refl, Bool, true, false, some, if◌then◌else◌}

module _ (hash : Key → ℕ) (cmp : Key → Key → ℤ) where
  -- after `hashtable_set` on a valid table of at most 2^30 buckets, whose keys and one more `size_t` can count, with memory for
  -- an object and whether or not `calloc` has memory for a greater array, `hashtable_get` returns the new datum for every key equal to the one set, and for every other key what it
  -- returned before
  pub set-get :
      (k : IsKeyed hash cmp) (g : Bool) (tbl : Table) (key : Key) (x : Datum)
      → IsValid hash cmp tbl
      → tbl.nbuckets * 2 ≤ int_limit
      → tbl.nkeys + 1 < size_mod
      → (q : Key)
      → (set hash cmp true g tbl key x >>= λ r. get hash cmp r.0 q)
        ≡ (if same cmp key q then ok x else get hash cmp tbl q)
  set-get k g tbl key x v small few q =
      let (tbl', run, stored) = set-Stored hash cmp k g tbl key x v small few in
      rw (run, get-view hash cmp k tbl' q stored.valid, get-view hash cmp k tbl q v, stored.reads q)
        (choose (same cmp key q))
    where
      choose :
          (b : Bool)
          → ok (or_null (if b then some x else view hash cmp tbl q))
            ≡ (if b then ok x else ok (or_null (view hash cmp tbl q)))
      choose true = refl
      choose false = refl
