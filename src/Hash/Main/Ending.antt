-- ===== src/Hash/Main/Ending.antt =====
-- The end of the input at a value prompt of `main` of hashtable.c.
use dsa.Hash.Main.{
  Live, ended, blank, reading, received, release, check, pointer, at_value, put, put_freed, prompts,
}
use dsa.Console.{Reply}
use dsa.Hash.{Key, Table, Run, fault, ok}
use dsa.Prelude.Int.{ℤ}
use dsa.Prelude.{
  ℕ, ◌≡◌, ◌⊎◌, inl, inr, refl, Bool, Bool-cases, false, Option, some, List, [], ◌∷◌, ◌==◌, ==_refl,
  ==→eq, update, sym, ◌∙◌, arith,
}

-- nothing but blank lines up to the end of the input
pub data EndsBlank : List Reply → Type 0 where
  at_end : EndsBlank []
  ends : {r : Reply} (rs : List Reply) → reading r ≡ ended → EndsBlank (r ∷ rs)
  blank_line : {r : Reply} {rs : List Reply} → reading r ≡ blank → EndsBlank rs → EndsBlank (r ∷ rs)

-- a string cannot be read
abbrev Gone : Key → Live → Type 0
Gone p live = (p ≡ 0) ⊎ (live p ≡ false)

update-false : (live : Live) (p x : Key) → live p ≡ false → update live x false p ≡ false
update-false live p x e = ground (arith, e)

check-Gone : (p : Key) (live : Live) → Gone p live → check p live ≡ fault
unfolding check
check-Gone p live (inl e) = rw e refl
check-Gone p live (inr e) = ground (arith, e)

release-Gone :
    (p x : Key) (live : Live) (r : Run Live)
    → Gone p live
    → release x live ≡ r
    → (r ≡ fault) ⊎ ((live' : Live) × (r ≡ ok live') × Gone p live')
unfolding release
release-Gone p x live r gone e = elim (Bool-cases (x == 0)) [
  | inl f ↦ inr (live, sym e ∙ rw f refl, gone)
  | inr f ↦ elim (Bool-cases (live x)) [
    | inr g ↦ inl (sym e ∙ rw (f, g) refl)
    | inl g ↦ inr (
      update live x false,
      sym e ∙ rw (f, g) refl,
      elim gone [ inl h ↦ inl h | inr h ↦ inr (update-false live p x h) ],
    )
  ]
]

release_lem :
    (p : Key) (live : Live)
    → (release p live ≡ fault) ⊎ ((live' : Live) × (release p live ≡ ok live') × Gone p live')
unfolding release
release_lem p live = elim (Bool-cases (p == 0)) [
  | inl f ↦ inr (live, rw f refl, inl (==→eq f))
  | inr f ↦ elim (Bool-cases (live p)) [
    | inr g ↦ inl (rw (f, g) refl)
    | inl g ↦ inr (update live p false, rw (f, g) refl, inr (rw (==_refl p) refl))
  ]
]

module _ (hash : Key → ℕ) (cmp : Key → Key → ℤ) (object array : Table → Bool) where
  put-Gone :
      (tbl : Table) (key val : Key) (live : Live)
      → Gone key live
      → put hash cmp object array tbl key val live ≡ fault
  unfolding put
  put-Gone tbl key val live gone = rw (check-Gone key live gone) refl

  put_freed-fault :
      (tbl : Table) (key val : Key) (live : Live)
      → put_freed hash cmp object array tbl key val live ≡ fault
  unfolding put_freed
  put_freed-fault tbl key val live = elim (release_lem key live) [
    | inl e ↦ rw e refl
    | inr (live₁, e, gone) ↦ elim (release-Gone key val live₁ _ gone refl) [
      | inl f ↦ rw (e, f) refl
      | inr (live₂, f, gone') ↦ rw (e, f) (put-Gone tbl key val live₂ gone')
    ]
  ]

  -- Where the input ends at the prompt for a value, after any blank lines, the code reads the key that it has freed:
  -- whatever the table and the strings are, that is a fault.
  pub prompts-fault :
      (buffer : Option Key → Live → Key) (tbl : Table) (key : Key) (val : Option Key)
      (rs : List Reply) (live : Live)
      → EndsBlank rs
      → prompts hash cmp object array buffer (at_value key val) tbl rs live ≡ fault
  unfolding prompts
  prompts-fault buffer tbl key val _ live at_end = put_freed-fault tbl key (pointer val) live
  prompts-fault buffer tbl key val _ live (ends rs e) =
      let p = buffer val live in
      rw (prompts, e, put_freed-fault tbl key p (received val p live)) refl
  prompts-fault buffer tbl key val _ live (blank_line {r} {rs} e more) =
      let p = buffer val live in
      rw (prompts, e) (prompts-fault buffer tbl key (some p) rs (received val p live) more)
