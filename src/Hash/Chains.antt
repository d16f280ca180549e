-- ===== src/Hash/Chains.antt =====
-- One chain: how often a key occurs, and what assignment and unlinking do to a lookup.
use dsa.Hash.Keys.{IsKeyed, same}
use dsa.Hash.{Key, Datum, Obj, Chain, matches, find, assign, unlink}
use dsa.Prelude.Int.{ℤ}
use dsa.Prelude.{
  ℕ, ◌+◌, ◌≤◌, ◌≡◌, refl, true, to_nat, Option, none, some, [], ◌∷◌, ◌++◌, length, if◌then◌else◌,
  arith,
}

-- the datum of an object that was found
abbrev pub datum_of : Option Obj → Option Datum
datum_of none = none
datum_of (some o) = some o.datum

abbrev pub or_else : Option Datum → Option Datum → Option Datum
or_else none b = b
or_else (some a) b = some a

pub or_else-none : (a : Option Datum) → or_else a none ≡ a
or_else-none none = refl
or_else-none (some a) = refl

module _ {hash : Key → ℕ} {cmp : Key → Key → ℤ} where
  pub same_left :
      (k : IsKeyed hash cmp) (a b c : Key) → same cmp b c ≡ true → same cmp a b ≡ same cmp a c
  same_left k a b c e = ground (arith, k.same_trans a b c, k.same_trans a c b, k.same_symm b c)

  pub same_right :
      (k : IsKeyed hash cmp) (a b c : Key) → same cmp a b ≡ true → same cmp a c ≡ same cmp b c
  same_right k a b c e = ground (arith, k.same_trans a b c, k.same_trans b a c, k.same_symm a b)

  same_meet :
      (k : IsKeyed hash cmp) (a b c : Key)
      → same cmp a b ≡ true
      → same cmp a c ≡ true
      → same cmp b c ≡ true
  same_meet k a b c e f = k.same_trans b a c (k.same_symm a b e) f

module _ (hash : Key → ℕ) (cmp : Key → Key → ℤ) where
  -- the value under a key
  abbrev pub value : Key → Chain → Option Datum
  value q c = datum_of (find hash cmp q c)

  abbrev pub count : Key → Chain → ℕ
  count q [] = 0
  count q (o ∷ os) = to_nat (matches hash cmp q o) + count q os

  pub value-none : (q : Key) (c : Chain) → count q c ≡ 0 → value q c ≡ none
  value-none q [] h = refl
  value-none q (o ∷ os) h = ground (arith, value-none q os)

  pub find-none : (q : Key) (c : Chain) → find hash cmp q c ≡ none → count q c ≡ 0
  find-none q [] h = refl
  find-none q (o ∷ os) h = ground (arith, find-none q os)

  pub value-append : (q : Key) (a b : Chain) → value q (a ++ b) ≡ or_else (value q a) (value q b)
  value-append q [] b = refl
  value-append q (o ∷ a) b = ground (arith, value-append q a b)

  pub count-append : (q : Key) (a b : Chain) → count q (a ++ b) ≡ count q a + count q b
  count-append q [] b = omega arith
  count-append q (o ∷ a) b = omega (arith, count-append q a b)

  module _ (k : IsKeyed hash cmp) (key q : Key) where
    -- an equal key occurs as often
    pub count_congr : (c : Chain) → same cmp key q ≡ true → count key c ≡ count q c
    count_congr [] e = refl
    count_congr (o ∷ os) e = ground (arith, count_congr os e, same_left k o.key key q e)

    pub value-assign :
        (v : Datum) (c : Chain) (o : Obj)
        → find hash cmp key c ≡ some o
        → value q (assign hash cmp key v c) ≡ (if same cmp key q then some v else value q c)
    value-assign v [] o h = cc
    value-assign v (p ∷ ps) o h =
        ground (arith, value-assign v ps o, same_left k p.key key q, same_meet k p.key key q)

    pub count-assign : (v : Datum) (c : Chain) → count q (assign hash cmp key v c) ≡ count q c
    count-assign v [] = refl
    count-assign v (o ∷ os) = ground (arith, count-assign v os)

    pub count-unlink : (c : Chain) → count q (unlink hash cmp key c) ≤ count q c
    count-unlink [] = omega arith
    count-unlink (o ∷ os) = ground (arith, count-unlink os)

    -- a key that occurs at most once is gone after unlinking, and the others stay
    pub value-unlink :
        (c : Chain)
        → count key c ≤ 1
        → value q (unlink hash cmp key c) ≡ (if same cmp key q then none else value q c)
    value-unlink [] h = ground arith
    value-unlink (o ∷ os) h = ground (
      arith,
      value-unlink os,
      same_left k o.key key q,
      same_meet k o.key key q,
      value-none q os,
      count_congr os,
    )

  pub length-unlink :
      (q : Key) (c : Chain) (o : Obj)
      → find hash cmp q c ≡ some o
      → length (unlink hash cmp q c) + 1 ≡ length c
  length-unlink q [] o h = cc
  length-unlink q (p ∷ ps) o h = ground (arith, length-unlink q ps o)

  pub length-assign : (q : Key) (v : Datum) (c : Chain) → length (assign hash cmp q v c) ≡ length c
  length-assign q v [] = refl
  length-assign q v (p ∷ ps) = ground (arith, length-assign q v ps)
