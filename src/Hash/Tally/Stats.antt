-- ===== src/Hash/Tally/Stats.antt =====
-- The sizes that `print_stats` prints.
use dsa.Hash.Grow.{IsValid}
use dsa.Hash.Move.{bucket-ok, to_int-ok}
use dsa.Hash.Tally.{bucket_sizes, stats}
use dsa.Hash.{Key, Chain, Table, ok, int_limit}
use dsa.Prelude.Int.{ℤ}
use dsa.Prelude.{
  ℕ, suc, ◌+◌, ◌<◌, ◌≡◌, refl, sym, ◌∙◌, ap, List, [], ◌∷◌, ◌++◌, append_assoc, length,
  length-append, arith,
}
use dsa.Hash.Iterate.{get_elem?-append}
use mathlib.Core.List.{flatten}

abbrev pub sum : List ℕ → ℕ
sum [] = 0
sum (n ∷ ns) = n + sum ns

abbrev sizes : List Chain → List ℕ
sizes [] = []
sizes (c ∷ cs) = length c ∷ sizes cs

length-sizes : (cs : List Chain) → length (sizes cs) ≡ length cs
length-sizes [] = refl
length-sizes (c ∷ cs) = ap suc (length-sizes cs)

sum-sizes : (cs : List Chain) → sum (sizes cs) ≡ length (flatten cs)
unfolding flatten
sum-sizes [] = refl
sum-sizes (c ∷ cs) = omega (arith, length-append c (flatten cs), sum-sizes cs)

bucket_sizes-sizes :
    (done rest : List Chain)
    → length done + length rest < int_limit
    → bucket_sizes (length rest) (length done) (done ++ rest) ≡ ok (sizes rest)
unfolding bucket_sizes
bucket_sizes-sizes done [] small = refl
bucket_sizes-sizes done (c ∷ cs) small =
    let e : length (done ++ (c ∷ [])) ≡ length done + 1 = length-append done (c ∷ []) in
    let rest = bucket_sizes-sizes (done ++ (c ∷ [])) cs (omega (arith, e, small)) in
    let rest' : bucket_sizes (length cs) (length done + 1) (done ++ (c ∷ cs)) ≡ ok (sizes cs) =
      ap (λ n. bucket_sizes (length cs) n (done ++ (c ∷ cs))) (sym e)
      ∙ ap (bucket_sizes (length cs) (length (done ++ (c ∷ []))))
          (sym (append_assoc done (c ∷ []) cs))
      ∙ rest in
    rw
      (
        bucket-ok (done ++ (c ∷ cs)) (length done) c (get_elem?-append done c cs),
        to_int-ok (length done + 1) (omega (arith, small)),
        rest',
      )
      refl

-- `print_stats` of a valid table of less than 2^31 buckets prints a size for each bucket, and the sizes sum up to the number
-- of keys
pub stats-sum :
    (hash : Key → ℕ) (cmp : Key → Key → ℤ) (tbl : Table)
    → IsValid hash cmp tbl
    → tbl.nbuckets < int_limit
    → (ns : List ℕ) × (stats tbl ≡ ok ns) × (length ns ≡ tbl.nbuckets) × (sum ns ≡ tbl.nkeys)
unfolding stats
stats-sum hash cmp tbl v small = (
  sizes tbl.buckets,
  ap (λ n. bucket_sizes n 0 tbl.buckets) (sym v.width)
      ∙ bucket_sizes-sizes [] tbl.buckets (omega (arith, v.width, small)),
  length-sizes tbl.buckets ∙ v.width,
  sum-sizes tbl.buckets ∙ v.counted,
)
