-- ===== src/Hash/Main.antt =====
-- `main` of hashtable.c after its arguments: a prompt for a key, then a prompt for its value until that is not empty, up to a blank key
-- or the end of the input. The strings are memory: which addresses hold one is part of the state, `getline` allocates them, and a
-- string that is read or freed when it is not allocated is a fault. The strings that the table holds are read as they are.
pub mod Ending
pub mod Round
use dsa.Console.{Reply, got, failed, chomp, is_empty}
use dsa.Hash.{
  Key, Datum, Table, Status, done, no_memory, Run, fault, ok, ◌>>=◌, to_int, bucket, init, get,
}
use dsa.Hash.Iterate.{iterate, free}
use dsa.Hash.Tally.{zeros, store, stats}
use dsa.Prelude.Int.{ℤ}
use dsa.Prelude.{
  ℕ, Bool, true, false, Option, none, some, List, [], ◌∷◌, ◌==◌, if◌then◌else◌, update,
}

-- the addresses that hold a string
abbrev pub Live : Type 0
Live = Key → Bool

-- what the code tells apart in an answer: `r <= 0` with and without `feof`, and a line with or without text
pub data Reading : Type 0 where
  ended broken blank text : Reading

abbrev pub reading : Reply → Reading
reading (failed eof) = if eof then ended else broken
reading (got [] eof) = if eof then ended else broken
reading (got (b ∷ bs) eof) = if is_empty (chomp (b ∷ bs)) then blank else text

-- the strings after `getline`, which frees the buffer that its pointer has if the line is elsewhere
abbrev pub received : Option Key → Key → Live → Live
received none p live = update live p true
received (some b) p live = update (update live b false) p true

-- `free`
unfoldable pub release : Key → Live → Run Live
release p live = if p == 0 then ok live else if live p then ok (update live p false) else fault

-- a string is read
unfoldable pub check : Key → Live → Run Live
check p live = if p == 0 then fault else if live p then ok live else fault

abbrev pub pointer : Option Key → Key
pointer none = 0
pointer (some p) = p

-- `free_keyval`, in what is left after the calls before it
unfoldable pub free_keyval : Key → Datum → Run Live → Run Live
unfolding release
free_keyval key datum r = do live ← r; live' ← release key live; release datum live'

-- where `main` waits for a line: `key`, and `val` if it has a buffer yet
pub data Prompt : Type 0 where
  at_key : Prompt
  at_value : (key : Key) → (val : Option Key) → Prompt

-- Whether `calloc` has memory for an object and for an array is asked of `object` and `array`, with the table.
module _ (hash : Key → ℕ) (cmp : Key → Key → ℤ) (object array : Table → Bool) where
  -- the statements after the value: the result none is the exit for want of memory
  unfoldable pub put : Table → (key val : Key) → Live → Run (Option (Table × Live))
  unfolding check release store stats
  put tbl key val live = do
    live₁ ← check key live
    old ← get hash cmp tbl key
    r ← store hash cmp (object tbl) (array tbl) tbl key val
    elim r [
      | none ↦ ok none
      | some tbl' ↦ (do
        live₂ ← if old == 0 then ok live₁ else (release old live₁ >>= release key)
        _ ← stats tbl'
        ok (some (tbl', live₂)))
    ]

  -- the end of the input at the value prompt: both strings are freed, and the code goes on with them
  unfoldable pub put_freed : Table → (key val : Key) → Live → Run (Option (Table × Live))
  unfolding put release
  put_freed tbl key val live = do
    live₁ ← release key live
    live₂ ← release val live₁
    put tbl key val live₂

-- The buffer that `getline` leaves in its pointer is asked of `buffer`, with the one that the pointer has.
module _ (hash : Key → ℕ) (cmp : Key → Key → ℤ) (object array : Table → Bool)
    (buffer : Option Key → Live → Key) where
  -- the loop over the prompts, with the answers of `getline` that are left
  unfoldable pub prompts : Prompt → Table → List Reply → Live → Run (Option (Table × Live))
  unfolding put put_freed release
  prompts at_key tbl [] live = ok (some (tbl, live))
  prompts at_key tbl (r ∷ rs) live =
      let key = buffer none live in
      let live₁ = received none key live in
      let stop = release key live₁ >>= λ live₂. ok (some (tbl, live₂)) in
      elim (reading r) [
        | ended ↦ stop
        | broken ↦ ok none
        | blank ↦ stop
        | text ↦ prompts (at_value key none) tbl rs live₁
      ]
  prompts (at_value key old) tbl [] live =
      put_freed hash cmp object array tbl key (pointer old) live
  prompts (at_value key old) tbl (r ∷ rs) live =
      let val = buffer old live in
      let live₁ = received old val live in
      let next : Option (Table × Live) → Run (Option (Table × Live)) =
        λ st. elim st [ none ↦ ok none | some st ↦ prompts at_key st.0 rs st.1 ] in
      elim (reading r) [
        | ended ↦ put_freed hash cmp object array tbl key val live₁ >>= next
        | broken ↦ ok none
        | blank ↦ prompts (at_value key (some val)) tbl rs live₁
        | text ↦ put hash cmp object array tbl key val live₁ >>= next
      ]

  -- the statements after the loop, with the table and the strings
  unfoldable pub finish : Table → Live → Run Live
  unfolding free_keyval stats iterate free
  finish tbl live = do
    _ ← stats tbl
    r ← iterate tbl free_keyval (ok live)
    live' ← r
    free (λ o s. s) (λ s. s) tbl live'

  -- the result none is the exit with status 1
  unfoldable pub main : (got_table : Bool) → List Reply → Live → Run (Option Live)
  unfolding prompts finish
  main got_table rs live =
      let (tbl, status) = init got_table zeros 4 in
      elim status [
        | no_memory ↦ ok none
        | done ↦ (do
          r ← prompts at_key tbl rs live
          elim r [ none ↦ ok none | some st ↦ (do live' ← finish st.0 st.1; ok (some live')) ])
      ]
