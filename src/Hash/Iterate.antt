-- ===== src/Hash/Iterate.antt =====
-- The walks over a whole table, `hashtable_iterate` and `hashtable_free`. What the callback and the C
-- library's `free` change is a state of any type; the array and the `next` pointers are read as they are.
use dsa.Hash.Chains.{value, count}
use dsa.Hash.Grow.{IsValid, view}
use dsa.Hash.Move.{bucket-ok, to_int-ok}
use dsa.Hash.{Key, Datum, Obj, Chain, Table, Run, ok, ◌>>=◌, int_limit, to_int, bucket}
use dsa.Prelude.Int.{ℤ}
use dsa.Prelude.{
  ℕ, zero, suc, ◌+◌, ◌≤◌, ◌<◌, ◌≡◌, refl, sym, ◌∙◌, ap, subst, some, List, [], ◌∷◌, ◌++◌,
  append_assoc, length, length-append, get_elem?, arith,
}
use mathlib.Core.List.{flatten}

module _ {S : Type 0} where
  -- the inner loop: the next pointer is read before or after the call
  abbrev pub each : (Obj → S → S) → Chain → S → S
  each body [] s = s
  each body (o ∷ os) s = each body os (body o s)

  -- the outer loop, whose counter `i` is an `int`
  unfoldable pub each_bucket : (Obj → S → S) → (rounds i : ℕ) → List Chain → S → Run S
  each_bucket body zero i bs s = ok s
  each_bucket body (suc k) i bs s = do
    c ← bucket bs i
    next ← to_int (i + 1)
    each_bucket body k next bs (each body c s)

  unfoldable pub iterate : Table → (Key → Datum → S → S) → S → Run S
  unfolding each_bucket
  iterate tbl fn s = each_bucket (λ o. fn o.key o.datum) tbl.nbuckets 0 tbl.buckets s

  -- `free` of an object, and `free` of the array
  unfoldable pub free : (free_obj : Obj → S → S) → (free_array : S → S) → Table → S → Run S
  unfolding each_bucket
  free free_obj free_array tbl s = do
    s' ← each_bucket free_obj tbl.nbuckets 0 tbl.buckets s
    ok (free_array s')

-- the calls of `body` on the objects of a list, one after the other
abbrev pub in_turn : {S : Type 0} → (Obj → S → S) → List Obj → S → S
in_turn body [] s = s
in_turn body (o ∷ os) s = in_turn body os (body o s)

each-in_turn :
    {S : Type 0} (body : Obj → S → S) (os : Chain) (s : S) → each body os s ≡ in_turn body os s
each-in_turn body [] s = refl
each-in_turn body (o ∷ os) s = each-in_turn body os (body o s)

module _ {A : Type 0} where
  pub get_elem?-append :
      (xs : List A) (y : A) (ys : List A) → get_elem? (xs ++ (y ∷ ys)) (length xs) ≡ some y
  get_elem?-append [] y ys = refl
  get_elem?-append (x ∷ xs) y ys = get_elem?-append xs y ys

module _ {S : Type 0} (body : Obj → S → S) where
  each-append : (xs ys : Chain) (s : S) → each body (xs ++ ys) s ≡ each body ys (each body xs s)
  each-append [] ys s = refl
  each-append (x ∷ xs) ys s = each-append xs ys (body x s)

  each_bucket-flatten :
      (done rest : List Chain) (s : S)
      → length done + length rest < int_limit
      → each_bucket body (length rest) (length done) (done ++ rest) s
        ≡ ok (each body (flatten rest) s)
  unfolding each_bucket flatten
  each_bucket-flatten done [] s small = refl
  each_bucket-flatten done (c ∷ cs) s small =
      let e : length (done ++ (c ∷ [])) ≡ length done + 1 = length-append done (c ∷ []) in
      let rest = each_bucket-flatten (done ++ (c ∷ [])) cs (each body c s) (omega (arith, e)) in
      rw
        (
          bucket-ok (done ++ (c ∷ cs)) (length done) c (get_elem?-append done c cs),
          to_int-ok (length done + 1) (omega arith),
        )
        (subst
          (λ n.
            each_bucket body (length cs) n (done ++ (c ∷ cs)) (each body c s)
            ≡ ok (each body (flatten (c ∷ cs)) s))
          e
          (ap (λ bs. each_bucket body (length cs) (length (done ++ (c ∷ []))) bs (each body c s))
              (sym (append_assoc done (c ∷ []) cs))
            ∙ rest
            ∙ ap ok (sym (each-append c (flatten cs) s))))

module _ (hash : Key → ℕ) (cmp : Key → Key → ℤ) {S : Type 0} where
  whole :
      (body : Obj → S → S) (tbl : Table) (s : S)
      → IsValid hash cmp tbl
      → tbl.nbuckets < int_limit
      → each_bucket body tbl.nbuckets 0 tbl.buckets s ≡ ok (in_turn body (flatten tbl.buckets) s)
  whole body tbl s v small =
      ap (λ n. each_bucket body n 0 tbl.buckets s) (sym v.width)
      ∙ each_bucket-flatten body [] tbl.buckets s (omega (arith, v.width, small))
      ∙ ap ok (each-in_turn body (flatten tbl.buckets) s)

  -- `hashtable_iterate` on a valid table of less than 2^31 buckets calls its callback once for each of `nkeys`
  -- objects, which hold what the table holds, and no two of them an equal key
  pub iterate-each :
      (tbl : Table) (fn : Key → Datum → S → S) (s : S)
      → IsValid hash cmp tbl
      → tbl.nbuckets < int_limit
      → (os : Chain) × (iterate tbl fn s ≡ ok (in_turn (λ o. fn o.key o.datum) os s))
        × (length os ≡ tbl.nkeys)
        × ((q : Key) → (value hash cmp q os ≡ view hash cmp tbl q) × (count hash cmp q os ≤ 1))
  unfolding iterate
  iterate-each tbl fn s v small = (
    flatten tbl.buckets,
    whole (λ o. fn o.key o.datum) tbl s v small,
    v.counted,
    λ q. (refl, v.once q),
  )

  -- `hashtable_free` on a valid table of less than 2^31 buckets frees `nkeys` objects, those that hold what the
  -- table holds, and then the array
  pub free-each :
      (tbl : Table) (free_obj : Obj → S → S) (free_array : S → S) (s : S)
      → IsValid hash cmp tbl
      → tbl.nbuckets < int_limit
      → (os : Chain) × (free free_obj free_array tbl s ≡ ok (free_array (in_turn free_obj os s)))
        × (length os ≡ tbl.nkeys)
        × ((q : Key) → (value hash cmp q os ≡ view hash cmp tbl q) × (count hash cmp q os ≤ 1))
  unfolding free
  free-each tbl free_obj free_array s v small = (
    flatten tbl.buckets,
    ap (λ m. m >>= (λ s'. ok (free_array s'))) (whole free_obj tbl s v small),
    v.counted,
    λ q. (refl, v.once q),
  )
