-- ===== src/Tree/Array.antt =====
-- The nodes of a tree that stand in an array.
use dsa.Prelude.{
  ℕ, zero, suc, ◌+◌, ◌<◌, ◌≤◌, ◌≡◌, ◌≢◌, ap, true, Bool, Bool-cases, inl, inr, ◌==◌, ==→eq, arith,
}
use dsa.Store.{Ptr, live}

-- the nodes of the array: each is there, none is the sentinel, and no two are the same
pub record IsArray (place : ℕ → Ptr) (nil : Ptr) (n : ℕ) (allocated : Ptr → Bool) : Type 0 where
  pub there : (j : ℕ) → j < n → live allocated (place j) ≡ true
  pub apart : (j : ℕ) → j < n → place j ≢ nil
  pub distinct : (i j : ℕ) → i < n → j < n → place i ≡ place j → i ≡ j

module _ (place : ℕ → Ptr) where
  -- the sum over `k` nodes of the array, from the `j`-th on
  abbrev pub total_places : (Ptr → ℕ) → (k j : ℕ) → ℕ
  total_places f zero j = 0
  total_places f (suc k) j = f (place j) + total_places f k (j + 1)

  pub total_places-ge :
      (f : Ptr → ℕ) (k j i : ℕ) → j ≤ i → i < j + k → f (place i) ≤ total_places f k j
  total_places-ge f zero j i low high = absurd (omega arith)
  total_places-ge f (suc k) j i low high = elim (Bool-cases (i == j)) [
    | inl e ↦ omega (arith, ap (λ x. f (place x)) (==→eq e))
    | inr e ↦ omega (arith, total_places-ge f k (j + 1) i (ground (arith, e)) (omega arith))
  ]

-- two places are two nodes
pub place-ne :
    {place : ℕ → Ptr} {nil : Ptr} {n : ℕ} {allocated : Ptr → Bool} (i j : ℕ)
    → i < n
    → j < n
    → IsArray place nil n allocated
    → i ≢ j
    → place i ≢ place j
place-ne i j low high array ne e = ne (array.distinct i j low high e)
