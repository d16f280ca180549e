-- ===== src/Hash/Grow.antt =====
-- `hashtable_grow` keeps every lookup.
use dsa.Hash.Buckets.{IsSpread, flatten-empty, empty-IsSpread}
use dsa.Hash.Chains.{or_else, or_else-none, value, count}
use dsa.Hash.Keys.{IsKeyed}
use dsa.Hash.{Key, Datum, Chain, Table, done, no_memory, ok, size_mod, int_limit, move_all, grow}
use dsa.Prelude.Int.{ℤ}
use dsa.Prelude.{
  false, ℕ, ◌*◌, ◌%◌, ◌≤◌, ◌<◌, ◌≡◌, refl, ◌∙◌, ap, true, Option, List, [], length, replicate,
  length-replicate, arith,
}
use dsa.Hash.Move.{move_chain-Moved, IsSpread-AllHashed, move_all-flatten}
use mathlib.Core.List.{flatten}

pub grow-false : (tbl : Table) → grow false tbl ≡ ok (tbl, no_memory)
unfolding grow
grow-false tbl = refl

grow_run :
    (tbl : Table) (n : ℕ) (fresh : List Chain)
    → tbl.nbuckets * 2 % size_mod ≡ n
    → move_all n tbl.buckets (replicate n []) ≡ ok fresh
    → grow true tbl ≡ ok (record tbl { buckets = fresh; nbuckets = n }, done)
unfolding grow
grow_run tbl n fresh e run = rw (e, run)

module _ (hash : Key → ℕ) (cmp : Key → Key → ℤ) where
  -- the table's invariant
  pub record IsValid (tbl : Table) : Type 0 where
    pub width : length tbl.buckets ≡ tbl.nbuckets
    pub some_bucket : 0 < tbl.nbuckets
    pub small : tbl.nbuckets ≤ int_limit
    pub spread : IsSpread hash cmp tbl.nbuckets 0 tbl.buckets
    pub once : (q : Key) → count hash cmp q (flatten tbl.buckets) ≤ 1
    pub counted : length (flatten tbl.buckets) ≡ tbl.nkeys

  -- what the table holds under a key
  abbrev pub view : Table → Key → Option Datum
  view tbl q = value hash cmp q (flatten tbl.buckets)

  pub record Grown (tbl : Table) (tbl' : Table) : Type 0 where
    pub valid : IsValid tbl'
    pub doubled : tbl'.nbuckets ≡ tbl.nbuckets * 2
    pub nkeys : tbl'.nkeys ≡ tbl.nkeys
    pub reads : (q : Key) → view tbl' q ≡ view tbl q

  -- `hashtable_grow`, with memory, doubles the array of a valid table of at most 2^30 buckets, returns 0, keeps every value and the
  -- number of keys, and leaves a valid table
  pub grow-Grown :
      (k : IsKeyed hash cmp) (tbl : Table)
      → IsValid tbl
      → tbl.nbuckets * 2 ≤ int_limit
      → (tbl' : Table) × (grow true tbl ≡ ok (tbl', done)) × Grown tbl tbl'
  grow-Grown k tbl v small =
      let n = tbl.nbuckets * 2 in
      let fits : n % size_mod ≡ n = omega arith in
      let start : List Chain = replicate n [] in
      let none : flatten start ≡ [] = flatten-empty n in
      let (fresh, run, m) =
        move_chain-Moved hash cmp k n (flatten tbl.buckets) start (omega (arith, v.some_bucket))
          small (length-replicate n []) (empty-IsSpread hash cmp n 0 n)
          (IsSpread-AllHashed hash cmp tbl.nbuckets 0 tbl.buckets v.spread) v.once in
      (
        record tbl { buckets = fresh; nbuckets = n },
        grow_run tbl n fresh fits (move_all-flatten n tbl.buckets start ∙ run),
        record {
          valid = record {
            width = m.width ∙ length-replicate n [];
            some_bucket = omega (arith, v.some_bucket);
            small = small;
            spread = m.spread;
            once = λ q. omega (arith, m.occurrences q, v.once q, ap (count hash cmp q) none);
            counted = omega (arith, m.total, v.counted, ap (λ (c : Chain). length c) none);
          };
          doubled = refl;
          nkeys = refl;
          reads = λ q.
              m.reads q
              ∙ ap (λ c. or_else (view tbl q) (value hash cmp q c)) none
              ∙ or_else-none (view tbl q);
        },
      )
