-- ===== src/Tests/Hash.antt =====
-- hashtable.c with `numhash` and `numcmp`, on a table of two chains with the keys 4, 6 and 9.
use dsa.Hash.Del.{del-keeps}
use dsa.Hash.Get.{or_null, Holds, get-Holds}
use dsa.Hash.Grow.{IsValid, view, Grown, grow-Grown}
use dsa.Hash.Init.{init-IsValid}
use dsa.Hash.Lookup.{set-get}
use dsa.Hash.Keys.{same, fnv1a_32, num_hash, num_cmp, num_cmp-IsKeyed}
use dsa.Hash.Set.{Stored, set-Stored, set-load, set-no_memory}
use dsa.Hash.{
  Key, Datum, Obj, Table, done, no_memory, ok, ◌>>=◌, rem, to_int, bucket, init, move_chain,
  move_all, grow, make_room, set, get, del,
}
use dsa.Prelude.{◌*◌, ◌/◌, ◌≤◌, ◌≡◌, refl, true, false, [], ◌∷◌, arith, Option, none, if◌then◌else◌}
use mathlib.Core.List.{flatten}

abbrev obj : Key → Datum → Obj
obj k d = record { key = k; hash = k; datum = d }

abbrev pub table : Table
table = record {
  buckets = (obj 6 600 ∷ obj 4 400 ∷ []) ∷ (obj 9 900 ∷ []) ∷ [];
  nbuckets = 2;
  nkeys = 3;
}

all_code : Unit {0}
unfolding rem to_int bucket init move_chain move_all grow make_room set get del num_hash num_cmp
    fnv1a_32
all_code = tt

pub table-IsValid : IsValid num_hash num_cmp table
unfolding num_hash num_cmp flatten
table-IsValid = record {
  width = refl;
  some_bucket = omega arith;
  small = omega arith;
  spread = ((refl, refl, (refl, refl, tt)), ((refl, refl, tt), tt));
  once = λ q. ground arith;
  counted = refl;
}

get-Holds_example :
    (d : Option Datum) × Holds num_cmp 4 (flatten table.buckets) d
    × (view num_hash num_cmp table 4 ≡ d)
    × (get num_hash num_cmp table 4 ≡ ok (or_null d))
get-Holds_example = get-Holds num_hash num_cmp num_cmp-IsKeyed table 4 table-IsValid

set-Stored_example :
    (tbl' : Table) × (set num_hash num_cmp true false table 11 1100 ≡ ok (tbl', done))
    × Stored num_hash num_cmp table 11 1100 tbl'
set-Stored_example =
    set-Stored num_hash num_cmp num_cmp-IsKeyed false table 11 1100 table-IsValid (omega arith)
      (omega arith)

set-no_memory_example : set num_hash num_cmp false true table 11 1100 ≡ ok (table, no_memory)
set-no_memory_example =
    set-no_memory num_hash num_cmp num_cmp-IsKeyed true table 11 1100 table-IsValid
      (unfold num_cmp flatten in refl)

grow-Grown_example :
    (tbl' : Table) × (grow true table ≡ ok (tbl', done)) × Grown num_hash num_cmp table tbl'
grow-Grown_example = grow-Grown num_hash num_cmp num_cmp-IsKeyed table table-IsValid (omega arith)

-- the table before its third key, whose load is not above the bound
abbrev small : Table
small = record { buckets = (obj 6 600 ∷ []) ∷ (obj 9 900 ∷ []) ∷ []; nbuckets = 2; nkeys = 2 }

small-IsValid : IsValid num_hash num_cmp small
unfolding num_hash num_cmp flatten
small-IsValid = record {
  width = refl;
  some_bucket = omega arith;
  small = omega arith;
  spread = ((refl, refl, tt), ((refl, refl, tt), tt));
  once = λ q. ground arith;
  counted = refl;
}

set-load_example :
    (tbl' : Table) × (set num_hash num_cmp true true small 4 400 ≡ ok (tbl', done))
    × (tbl'.nkeys * 100 / tbl'.nbuckets ≤ 110)
set-load_example =
    set-load num_hash num_cmp num_cmp-IsKeyed small 4 400 small-IsValid (omega arith) (omega arith)

del-keeps_example :
    (r : Datum × Key × Table) × (del num_hash num_cmp table 4096 4 ≡ ok r)
    × IsValid num_hash num_cmp r.2
    × (view num_hash num_cmp r.2 4 ≡ view num_hash num_cmp table 4)
del-keeps_example =
    del-keeps num_hash num_cmp num_cmp-IsKeyed table 4096 4 table-IsValid (omega arith)
      (unfold num_cmp in refl)

-- the third key doubles the array
set_runs :
    set num_hash num_cmp true true small 4 400
    ≡ ok (
      record {
        buckets = (obj 4 400 ∷ []) ∷ (obj 9 900 ∷ []) ∷ (obj 6 600 ∷ []) ∷ [] ∷ [];
        nbuckets = 4;
        nkeys = 3;
      },
      done,
    )
unfolding all_code
set_runs = refl

fnv_runs : fnv1a_32 (97 ∷ []) ≡ 3826002220
unfolding all_code
fnv_runs = refl

abbrev zeroed : Table
zeroed = record { buckets = []; nbuckets = 0; nkeys = 0 }

init-IsValid_example :
    (tbl' : Table) × (init true zeroed 4 ≡ (tbl', done))
    × IsValid num_hash num_cmp tbl'
    × ((q : Key) → view num_hash num_cmp tbl' q ≡ none)
init-IsValid_example = init-IsValid num_hash num_cmp zeroed 4 refl (omega arith) (omega arith)

set-get_example :
    (set num_hash num_cmp true false table 11 1100 >>= λ r. get num_hash num_cmp r.0 4)
    ≡ (if same num_cmp 11 4 then ok 1100 else get num_hash num_cmp table 4)
set-get_example =
    set-get num_hash num_cmp num_cmp-IsKeyed false table 11 1100 table-IsValid (omega arith)
      (omega arith) 4
