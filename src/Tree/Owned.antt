-- ===== src/Tree/Owned.antt =====
-- The memory that a tree owns, and what `free` leaves of it.
use dsa.Prelude.Int.{ℤ}
use dsa.Prelude.{
  if◌then◌else◌, ltb, Option, some, ◌==◌, ℕ, ◌+◌, ◌<◌, ◌≡◌, ◌≢◌, ◌⊎◌, inl, inr, refl, sym, ◌∙◌, ap,
  subst, to_nat, ==_refl, zero, suc, Bool, true, false, Bool-cases, ==→eq, update, arith,
}
use dsa.Numbers.{Values}
use dsa.Store.{Ptr, null, Store, ok, live, free}
use dsa.Tree.Rep.{Same, IsRep}
use dsa.Tree.{Tree, leaf, node, count}

pub live-allocated : (al : Ptr → Bool) (p : Ptr) → live al p ≡ true → al p ≡ true
unfolding live
live-allocated al p h = ground (arith, h)

pub live-fresh : (al : Ptr → Bool) (p : Ptr) → p ≢ null → live (update al p true) p ≡ true
unfolding live
live-fresh al p ne = ground arith

pub update-true : (al : Ptr → Bool) (p x : Ptr) → al x ≡ true → update al p true x ≡ true
update-true al p x h = ground arith

pub update-other : (al : Ptr → Bool) (p x : Ptr) → x ≢ p → update al p false x ≡ al x
update-other al p x ne = ground arith

pub free-ok :
    {T : Type 0} (s : Store T) (p : Ptr)
    → live s.allocated p ≡ true
    → free p s ≡ ok tt (record s { allocated = update s.allocated p false })
unfolding free
free-ok s p there = rw there refl

pub update_self : (val : Values) (p : Ptr) (v : ℤ) → update val p v p ≡ v
update_self val p v = rw (==_refl p) refl

pub zero_or_pos : (n : ℕ) → (n ≡ 0) ⊎ (0 < n)
zero_or_pos zero = inl refl
zero_or_pos (suc n) = inr (omega arith)

pub IsRep-live :
    {T : Type 0} (nil : Ptr) (s : Store T) (p x : Ptr) (t : Tree T)
    → IsRep nil s p t
    → 0 < count x t
    → live s.allocated x ≡ true
IsRep-live nil s p x leaf d i = absurd (omega arith)
IsRep-live nil s p x (node l a c r) (n, dl, dr) i = elim (zero_or_pos (count x l)) [
  | inr e ↦ IsRep-live nil s a x l dl e
  | inl e ↦ elim (zero_or_pos (count x r)) [
    | inr f ↦ IsRep-live nil s a x r dr f
    | inl f ↦
        let here : x ≡ a = ground arith in subst (λ y. live s.allocated y ≡ true) (sym here) n.there
  ]
]

pub freed-Same :
    {T : Type 0} (s : Store T) (p x : Ptr)
    → x ≢ p
    → Same s (record s { allocated = update s.allocated p false }) x
freed-Same s p x ne =
    (record { allocated = ground arith; left = refl; right = refl; rest = refl }, refl)

-- The nodes of the tree are all the memory beyond `base`.
abbrev pub Owned : {T : Type 0} → (base : Ptr → Bool) → Store T → Tree T → Type 0
Owned base s t =
    (x : Ptr) → (count x t ≡ 0 → s.allocated x ≡ base x) × (0 < count x t → base x ≡ false)

update_here : (al : Ptr → Bool) (p x : Ptr) (v : Bool) → (x == p) ≡ true → update al p v x ≡ v
update_here al p x v e = rw e refl

update_there : (al : Ptr → Bool) (p x : Ptr) (v : Bool) → (x == p) ≡ false → update al p v x ≡ al x
update_there al p x v e = rw e refl

module _ {T : Type 0} (base : Ptr → Bool) (s s' : Store T) (t t' : Tree T) (p : Ptr) where
  pub Owned-more :
      count p t ≡ 0
      → s.allocated p ≡ false
      → s'.allocated ≡ update s.allocated p true
      → ((x : Ptr) → count x t' ≡ to_nat (x == p) + count x t)
      → Owned base s t
      → Owned base s' t'
  Owned-more out spare e counts own x = elim (Bool-cases (x == p)) [
    | inl q ↦ (
      λ z. absurd (omega (arith, z, counts x, ap to_nat q)),
      λ i. ap base (==→eq q) ∙ sym ((own p).0 out) ∙ spare,
    )
    | inr q ↦ (
      λ z.
          ap (λ f. f x) e
          ∙ update_there s.allocated p x true q
          ∙ (own x).0 (omega (arith, z, counts x)),
      λ i. (own x).1 (omega (arith, i, counts x, ap to_nat q)),
    )
  ]

  pub Owned-less :
      0 < count p t
      → s'.allocated ≡ update s.allocated p false
      → ((x : Ptr) → count x t' + to_nat (x == p) ≡ count x t)
      → Owned base s t
      → Owned base s' t'
  Owned-less inside e counts own x = elim (Bool-cases (x == p)) [
    | inl q ↦ (
      λ z.
          ap (λ f. f x) e
          ∙ update_here s.allocated p x false q
          ∙ sym (ap base (==→eq q) ∙ (own p).1 inside),
      λ i. (own x).1 (omega (arith, i, counts x)),
    )
    | inr q ↦ (
      λ z.
          ap (λ f. f x) e
          ∙ update_there s.allocated p x false q
          ∙ (own x).0 (omega (arith, z, counts x, ap to_nat q)),
      λ i. (own x).1 (omega (arith, i, counts x)),
    )
  ]

-- a node from `calloc`: it was no memory before
pub record IsFresh {T : Type 0} (s : Store T) (p : Ptr) : Type 0 where
  pub inner : p ≢ null
  pub spare : s.allocated p ≡ false

-- what `main` needs of `calloc`: an answer with a node is a node that was no memory before
abbrev pub IsCalloc : {T : Type 0} → (Store T → Option Ptr) → Type 0
IsCalloc {T} calloc = (s : Store T) (p : Ptr) → calloc s ≡ some p → IsFresh s p

-- what freeing the nodes of a tree leaves is the memory beyond which the tree was
pub freed-Owned :
    (k : ℕ) (now before : Bool)
    → (k ≡ 0 → now ≡ before) × (0 < k → before ≡ false)
    → (if ltb 0 k then false else now) ≡ before
freed-Owned zero now before own = own.0 refl
freed-Owned (suc k) now before own = ground (arith, own.1 (omega arith))
