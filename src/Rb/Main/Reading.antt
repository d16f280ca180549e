-- ===== src/Rb/Main/Reading.antt =====
-- What `read_long` takes from the input.
use dsa.Console.{
  Reply, got, failed, Conversion, has_failure, has_failure-more, chomp, is_empty, at_nul,
}
use dsa.Prelude.Int.{ℤ, pos, eqb_ℤ}
use dsa.Prelude.{
  ℕ, ◌≤◌, ◌≡◌, refl, true, false, not, ◌||◌, Bool-cases, inl, inr, if◌then◌else◌, List, [], ◌∷◌,
  length, arith,
}
use dsa.Rb.Main.{Number, number, failure, read_long}

-- the input that is left is shorter, and no more of it fails; a number that is not at the end of the input, and the exit only
-- for a failure
abbrev pub Leaves : List Reply → Number → Type 0
Leaves rs failure = has_failure rs ≡ true
Leaves rs (number v eof rest) =
    (length rest ≤ length rs) × (has_failure rest ≡ true → has_failure rs ≡ true)

Leaves-more : (r : Reply) (rs : List Reply) (n : Number) → Leaves rs n → Leaves (r ∷ rs) n
Leaves-more r rs failure h = has_failure-more r rs h
Leaves-more r rs (number v eof rest) (small, h) =
    (omega (arith, small), λ i. has_failure-more r rs (h i))

module _ (strtol : List ℕ → Conversion ℤ) where
  pub read_long-Leaves : (val : ℤ) (rs : List Reply) → Leaves rs (read_long strtol val rs)
  unfolding read_long
  read_long-Leaves val [] = (omega arith, λ h. h)
  read_long-Leaves val (failed true ∷ rs) = (omega arith, λ h. h)
  read_long-Leaves val (failed false ∷ rs) = refl
  read_long-Leaves val (got [] true ∷ rs) = (omega arith, λ h. h)
  read_long-Leaves val (got [] false ∷ rs) = refl
  read_long-Leaves val (got (b ∷ bs) eof ∷ rs) =
      let text = chomp (b ∷ bs) in
      let c = strtol text in
      let val' = if is_empty text then val else c.value in
      let more =
        Leaves-more (got (b ∷ bs) eof) rs (read_long strtol val' rs) (read_long-Leaves val' rs) in
      elim (Bool-cases (is_empty text)) [
        | inl e ↦ rw e (rw e at more)
        | inr e ↦ elim (Bool-cases (not (eqb_ℤ c.errno (pos 0)) || not (at_nul c.rest))) [
          | inl f ↦ rw (e, f) (rw e at more)
          | inr f ↦ rw (e, f) (omega arith, λ h. has_failure-more (got (b ∷ bs) eof) rs h)
        ]
      ]
