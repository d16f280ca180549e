-- ===== src/Hash/Strings.antt =====
-- The keys of `strtest` and `main`: `strhash` and `_strcmp`. A string is the list of its bytes before the
-- NUL, which `string` reads at an address, and `strcmp` is the C library's.
use dsa.Hash.Keys.{IsKeyed, same, fnv1a_32}
use dsa.Hash.{Key}
use dsa.Prelude.Int.{ℤ, pos, negsuc, eqb_ℤ}
use dsa.Prelude.{ℕ, ◌≡◌, refl, sym, ◌∙◌, ap, true, List, arith}

module _ (string : Key → List ℕ) where
  unfoldable pub str_hash : Key → ℕ
  str_hash key = fnv1a_32 (string key)

  unfoldable pub str_cmp : (strcmp : List ℕ → List ℕ → ℤ) → Key → Key → ℤ
  str_cmp strcmp a b = strcmp (string a) (string b)

eqb_ℤ-eq : (z : ℤ) → eqb_ℤ z (pos 0) ≡ true → z ≡ pos 0
eqb_ℤ-eq (pos n) h = ap pos (ground (arith, h))
eqb_ℤ-eq (negsuc n) h = absurd (ground (arith, h))

-- `strhash` and `_strcmp` are as the table needs them, where `strcmp` returns 0 for equal strings and for
-- no others: equal strings at two addresses are one key
pub str_cmp-IsKeyed :
    (string : Key → List ℕ) (strcmp : List ℕ → List ℕ → ℤ)
    → ((xs : List ℕ) → strcmp xs xs ≡ pos 0)
    → ((xs ys : List ℕ) → strcmp xs ys ≡ pos 0 → xs ≡ ys)
    → IsKeyed (str_hash string) (str_cmp string strcmp)
unfolding str_hash str_cmp
str_cmp-IsKeyed string strcmp equal only =
    let same_of = λ (a b : Key) (e : string a ≡ string b).
      ap (λ z. eqb_ℤ z (pos 0)) (ap (strcmp (string a)) (sym e) ∙ equal (string a)) in
    let equal_of = λ (a b : Key) (h : same (str_cmp string strcmp) a b ≡ true).
      only (string a) (string b) (eqb_ℤ-eq (strcmp (string a) (string b)) h) in
    record {
      same_refl = λ a. same_of a a refl;
      same_symm = λ a b h. same_of b a (sym (equal_of a b h));
      same_trans = λ a b c h k. same_of a c (equal_of a b h ∙ equal_of b c k);
      same_hash = λ a b h. ap fnv1a_32 (equal_of a b h);
    }
