-- ===== src/Tests/Input.antt =====
-- A `strtol` that reads decimal digits, and a `calloc` that takes the first free address.
use dsa.Console.{Conversion}
use dsa.Numbers.{Values}
use dsa.Prelude.Int.{ℤ, pos}
use dsa.Prelude.{
  ℕ, zero, suc, ◌+◌, ◌-◌, ◌*◌, ◌≡◌, Bool-cases, inl, inr, Option, none, some, some-eq, ltb,
  if◌then◌else◌, List, [], ◌∷◌, subst, arith,
}
use dsa.Store.{Ptr, Store}
use dsa.Tree.Owned.{IsFresh, IsCalloc}

-- the addresses of the fields of a node
abbrev pub left_at : Ptr → Ptr
left_at p = p + 100

abbrev pub right_at : Ptr → Ptr
right_at p = p + 200

abbrev pub digits : ℕ → List ℕ → ℕ × List ℕ
digits n [] = (n, [])
digits n (b ∷ bs) =
    if ltb b b'0'
    then (n, b ∷ bs)
    else if ltb b'9' b
    then (n, b ∷ bs)
    else digits (n * 10 + (b - b'0')) bs

abbrev pub decimal : List ℕ → Conversion ℤ
decimal text = record { value = pos (digits 0 text).0; errno = pos 0; rest = (digits 0 text).1 }

-- the first free address of at most `k` from `p` on
abbrev pub first_free : {T : Type 0} → ℕ → ℕ → Store T → Option Ptr
first_free zero p s = none
first_free (suc k) p s = if s.allocated (suc p) then first_free k (suc p) s else some (suc p)

first_free-IsFresh :
    {T : Type 0} (k p : ℕ) (s : Store T) (q : Ptr) → first_free k p s ≡ some q → IsFresh s q
first_free-IsFresh zero p s q e = cc
first_free-IsFresh (suc k) p s q e = elim (Bool-cases (s.allocated (suc p))) [
  | inl h ↦ first_free-IsFresh k (suc p) s q (rw h at e)
  | inr h ↦
      let e' = some-eq (rw h at e) in
      subst (IsFresh s) e' (record { inner = λ z. omega (arith, z); spare = h })
]

pub some_memory : {T : Type 0} → IsCalloc (first_free {T = T} 20 0)
some_memory s p e = first_free-IsFresh 20 0 s p e

abbrev pub zeros : Values
zeros p = pos 0
