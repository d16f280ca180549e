-- ===== src/Rb/Main.antt =====
-- `main` of rbtree.c with `read_long`, after the arguments: from the answers of `getline` to the exit status.
pub mod Reading
pub mod Rounds
pub mod Ends
use dsa.Console.{Reply, got, failed, Conversion, chomp, at_nul, is_empty}
use dsa.Numbers.{Values}
use dsa.Prelude.Int.{ℤ, pos, eqb_ℤ}
use dsa.Prelude.{
  ℕ, zero, suc, Bool, true, false, not, ◌||◌, Option, none, some, ◌==◌, if◌then◌else◌, List, [],
  ◌∷◌,
}
use dsa.Rb.Defs.{Red, init, preorder}
use dsa.Rb.Session.{Command, insert_number, delete_number, print, command}
use dsa.Store.{Ptr, Store, out_of_fuel, Cmd, pure, ◌>>=◌, ◌>>◌, get_root, free}

-- what `read_long` comes to: the number, with `feof` and the input that is left, or the exit
pub data Number : Type 0 where
  number : ℤ → (eof : Bool) → List Reply → Number
  failure : Number

module _ (strtol : List ℕ → Conversion ℤ) where
  -- `val` is the variable of that name, which a line that is refused changes too.
  unfoldable pub read_long : ℤ → List Reply → Number
  read_long val [] = number val true []
  read_long val (failed eof ∷ rs) = if eof then number val true rs else failure
  read_long val (got [] eof ∷ rs) = if eof then number val true rs else failure
  read_long val (got (b ∷ bs) eof ∷ rs) =
      let text = chomp (b ∷ bs) in
      let c = strtol text in
      let again = read_long (if is_empty text then val else c.value) rs in
      if is_empty text
      then again
      else if not (eqb_ℤ c.errno (pos 0)) || not (at_nul c.rest)
      then again
      else number c.value eof rs

-- how the loop of `main` ends
pub data Ending : Type 0 where
  finished exited : Ending

-- the exit, or the statements after the loop
abbrev pub after_loop : ℕ → Ending → Cmd Red ℕ
after_loop fuel exited = pure 1
after_loop fuel finished = do root ← get_root; preorder fuel free root; pure 0

-- `calloc` answers with a node that depends on the memory, or has none.
module _ (nil dummy : Ptr) (left_field right_field : Ptr → Ptr) (fuel : ℕ) (garbage : ℤ)
    (strtol : List ℕ → Conversion ℤ) (calloc : Store Red → Option Ptr) where
  abbrev Loop : Type 0
  Loop = Values → List Reply → Cmd Red Ending

  -- `calloc` and the work of a command, and then the next round
  abbrev pub obey : Loop → Command → Values → List Reply → Cmd Red Ending
  obey again c val rs s =
      (do
        result ← command nil dummy left_field right_field fuel garbage c (calloc s) val
        elim result [ none ↦ pure exited | some val' ↦ again val' rs ])
        s

  -- a command with its number, unless the input ends there
  abbrev pub numbered : Loop → (ℤ → Command) → Number → Values → Cmd Red Ending
  numbered again c failure val = pure exited
  numbered again c (number v true rs) val = pure finished
  numbered again c (number v false rs) val = obey again (c v) val rs

  -- one round with the text of the line
  abbrev pub turn : Loop → Values → List Reply → List ℕ → Cmd Red Ending
  turn again val rs [] = pure finished
  turn again val rs (b ∷ c ∷ text) = again val rs
  turn again val rs (b ∷ []) =
      if b == b'i'
      then numbered again insert_number (read_long strtol (pos 0) rs) val
      else if b == b'd'
      then numbered again delete_number (read_long strtol (pos 0) rs) val
      else if b == b'p'
      then obey again print val rs
      else again val rs

  unfoldable pub main_loop : ℕ → Loop
  main_loop zero val replies = λ _. out_of_fuel
  main_loop (suc k) val [] = pure finished
  main_loop (suc k) val (failed eof ∷ rs) = pure (if eof then finished else exited)
  main_loop (suc k) val (got [] eof ∷ rs) = pure (if eof then finished else exited)
  main_loop (suc k) val (got (b ∷ bs) eof ∷ rs) = turn (main_loop k) val rs (chomp (b ∷ bs))

  -- the exit status
  unfoldable pub main : ℕ → Values → List Reply → Cmd Red ℕ
  unfolding main_loop
  main k val replies = do init nil; ending ← main_loop k val replies; after_loop fuel ending
