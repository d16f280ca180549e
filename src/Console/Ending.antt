-- ===== src/Console/Ending.antt =====
-- How `main` of the two tree programs may end.
use dsa.Console.{Reply, has_failure}
use dsa.Prelude.{ℕ, ◌≡◌, ◌⊎◌, Bool, true, Option, none, List}
use dsa.Store.{Ptr, Store}

module _ {T : Type 0} (calloc : Store T → Option Ptr) (rs : List Reply) where
  -- why it exits in the memory `s`: reading failed, or `calloc` has no node in that memory
  abbrev pub Trouble : Store T → Type 0
  Trouble s = (has_failure rs ≡ true) ⊎ (calloc s ≡ none)

  -- Its status is 0, and the nodes that are allocated are those of `base`; or its status is 1, and there is trouble in the memory
  -- that it leaves behind.
  abbrev pub EndsWell : (base : Ptr → Bool) → ℕ → Store T → Type 0
  EndsWell base status s =
      ((status ≡ 0) × ((x : Ptr) → s.allocated x ≡ base x)) ⊎ ((status ≡ 1) × Trouble s)
