-- ===== src/Console.antt =====
-- Standard input, as the `main` of the programs reads it: what `getline` answers, and the text of a line.
pub mod Ending
use dsa.Prelude.Int.{ℤ, pos, eqb_ℤ}
use dsa.Prelude.{
  ℕ, ◌≡◌, refl, Bool-cases, inl, inr, arith, ◌==◌, Bool, true, false, not, ◌||◌, List, [], ◌∷◌,
  if◌then◌else◌,
}

-- An answer of `getline`: the bytes of a line, or a failure, and what `feof` says after it. After the answers that are
-- listed the input is at its end.
pub data Reply : Type 0 where
  got : List ℕ → (eof : Bool) → Reply
  failed : (eof : Bool) → Reply

-- `if (line[r - 1] == '\n') line[--r] = '\0'`
abbrev pub chomp : List ℕ → List ℕ
chomp [] = []
chomp (b ∷ []) = if b == 10 then [] else b ∷ []
chomp (b ∷ c ∷ bs) = b ∷ chomp (c ∷ bs)

-- What `strtol` and `strtoul` give: the number, `errno`, and the text from `endptr` on. A text ends at a zero byte.
pub record Conversion (A : Type 0) : Type 0 where
  pub value : A
  pub errno : ℤ
  pub rest : List ℕ

-- `*endptr == '\0'`
abbrev pub at_nul : List ℕ → Bool
at_nul [] = true
at_nul (b ∷ bs) = b == 0

abbrev pub is_empty : List ℕ → Bool
is_empty [] = true
is_empty (b ∷ bs) = false

-- an answer that makes `main` exit: a failure that is not the end of the input
abbrev pub breaks : Reply → Bool
breaks (got [] eof) = not eof
breaks (got (b ∷ bs) eof) = false
breaks (failed eof) = not eof

abbrev pub has_failure : List Reply → Bool
has_failure [] = false
has_failure (r ∷ rs) = breaks r || has_failure rs

pub has_failure-more :
    (r : Reply) (rs : List Reply) → has_failure rs ≡ true → has_failure (r ∷ rs) ≡ true
has_failure-more r rs h = elim (Bool-cases (breaks r)) [ inl e ↦ rw e refl | inr e ↦ rw e h ]
