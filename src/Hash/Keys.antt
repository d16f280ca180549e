-- ===== src/Hash/Keys.antt =====
-- What the table relies on of its hash and its comparison, and the two instances of hashtable.c.
use Prim.Native.Nat.{bit_xor}
use dsa.Hash.{Key, unsigned_mod}
use dsa.Prelude.Int.{ℤ, pos, eqb_ℤ}
use dsa.Prelude.{ℕ, ◌*◌, ◌%◌, ◌≡◌, Bool, true, List, [], ◌∷◌, ◌==◌, if◌then◌else◌, arith}

abbrev pub same : (Key → Key → ℤ) → Key → Key → Bool
same cmp a b = eqb_ℤ (cmp a b) (pos 0)

-- `cmp` tells whether two keys are equal, and equal keys have one hash.
pub record IsKeyed (hash : Key → ℕ) (cmp : Key → Key → ℤ) : Type 0 where
  pub same_refl : (a : Key) → same cmp a a ≡ true
  pub same_symm : (a b : Key) → same cmp a b ≡ true → same cmp b a ≡ true
  pub same_trans : (a b c : Key) → same cmp a b ≡ true → same cmp b c ≡ true → same cmp a c ≡ true
  pub same_hash : (a b : Key) → same cmp a b ≡ true → hash a ≡ hash b

-- the loop of `fnv1a_32`, over the bytes that `data` points to
fnv_loop : ℕ → List ℕ → ℕ
fnv_loop hash [] = hash
fnv_loop hash (b ∷ bs) = fnv_loop (bit_xor hash b * 0x01000193 % unsigned_mod) bs

unfoldable pub fnv1a_32 : List ℕ → ℕ
unfolding fnv_loop
fnv1a_32 bytes = fnv_loop 0x811c9dc5 bytes

-- `numhash` and `numcmp`: the key itself is the number
unfoldable pub num_hash : Key → ℕ
num_hash key = key % unsigned_mod

unfoldable pub num_cmp : Key → Key → ℤ
num_cmp a b = if a == b then pos 0 else pos 1

-- the number keys of `numtest` satisfy what the table relies on
pub num_cmp-IsKeyed : IsKeyed num_hash num_cmp
unfolding num_hash num_cmp
num_cmp-IsKeyed = record {
  same_refl = λ a. ground arith;
  same_symm = λ a b h. ground arith;
  same_trans = λ a b c h k. ground arith;
  same_hash = λ a b h. ground arith;
}
