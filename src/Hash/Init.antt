-- ===== src/Hash/Init.antt =====
-- `hashtable_init`: a table without keys.
use dsa.Hash.Buckets.{flatten-empty, empty-IsSpread}
use dsa.Hash.Chains.{value, count}
use dsa.Hash.Grow.{IsValid, view}
use dsa.Hash.{Key, Chain, Table, done, int_limit, init}
use dsa.Prelude.Int.{ℤ}
use dsa.Prelude.{ℕ, ◌≤◌, ◌<◌, ◌≡◌, refl, ◌∙◌, ap, true, none, [], length, length-replicate, arith}

module _ (hash : Key → ℕ) (cmp : Key → Key → ℤ) where
  -- on a zeroed table, with memory and a number of buckets from 1 to 2^31, `hashtable_init` returns 0
  -- and leaves a valid table that holds nothing under any key
  pub init-IsValid :
      (tbl : Table) (n : ℕ)
      → tbl.nkeys ≡ 0
      → 0 < n
      → n ≤ int_limit
      → (tbl' : Table) × (init true tbl n ≡ (tbl', done))
        × IsValid hash cmp tbl'
        × ((q : Key) → view hash cmp tbl' q ≡ none)
  unfolding init
  init-IsValid tbl n zeroed some_bucket small =
      let empty = flatten-empty n in
      (
        _,
        refl,
        record {
          width = length-replicate n [];
          some_bucket = some_bucket;
          small = small;
          spread = empty-IsSpread hash cmp n 0 n;
          once = λ q. omega (arith, ap (count hash cmp q) empty);
          counted = ap (λ (c : Chain). length c) empty ∙ omega (arith, zeroed);
        },
        λ q. ap (value hash cmp q) empty,
      )
