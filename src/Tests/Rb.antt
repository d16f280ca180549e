-- ===== src/Tests/Rb.antt =====
-- rbtree.c run on small trees: the nodes stand at the addresses 1 to 9, and hold their address as
-- their number; the sentinel stands at the address 10.
use dsa.Bst.{num_cmp}
use dsa.Prelude.Int.{ℤ, pos}
use dsa.Prelude.{
  [], ℕ, zero, suc, ◌+◌, ◌≡◌, refl, true, List, [], ◌∷◌, ◌++◌, ◌==◌, ltb, if◌then◌else◌,
}
use dsa.Rb.Defs.{Red, init, replace, rotate}
use dsa.Rb.Delete.{blacken, turn_out, lift_side, delete}
use dsa.Rb.Insert.{insert}
use dsa.Store.{
  Ptr, Store, Run, ok, fault, out_of_fuel, Cmd, pure, ◌>>◌, live, get_parent, get_left, get_right,
  get_rest, set_parent, set_left, set_right, set_rest,
}

abbrev sentinel : Ptr
sentinel = 10

abbrev cmp : Ptr → Ptr → ℤ
cmp = num_cmp pos

-- garbage everywhere, before `rb_init`
abbrev fresh : Store Red
fresh = record {
  root = 77;
  allocated = λ p. ltb p 11;
  parent = λ _. 55;
  left = λ _. 55;
  right = λ _. 55;
  rest = λ _. true;
  printed = [];
}

insert_all : List Ptr → Cmd Red (Unit {0})
insert_all [] = pure tt
insert_all (x ∷ xs) = insert sentinel cmp 20 (pos 0) x >> insert_all xs

delete_all : List Ptr → Cmd Red (Unit {0})
delete_all [] = pure tt
delete_all (x ∷ xs) = delete sentinel 20 x >> delete_all xs

-- what `rb_preorder` prints: each node with its colour, 100 more if it is red
dump : ℕ → Ptr → Store Red → List ℕ
dump k p s = walk k p
  where
    walk : ℕ → Ptr → List ℕ
    walk = elim [
      | zero ↦ λ _. []
      | suc (k → ih) ↦ λ q.
          if q == sentinel
          then []
          else (if s.rest q then 100 + q else q) ∷ (ih (s.left q) ++ ih (s.right q))
    ]

shape : Run Red (Unit {0}) → List ℕ
shape (ok _ s) = dump 9 s.root s
shape fault = 404 ∷ []
shape out_of_fuel = 500 ∷ []

all_code : Unit {0}
unfolding insert_all delete_all dump shape init replace rotate blacken turn_out lift_side insert
    delete num_cmp live get_parent get_left get_right get_rest set_parent set_left set_right
    set_rest
all_code = tt

ascending :
    shape ((init sentinel >> insert_all (1 ∷ 2 ∷ 3 ∷ 4 ∷ 5 ∷ 6 ∷ 7 ∷ 8 ∷ [])) fresh)
    ≡ 4 ∷ 102 ∷ 1 ∷ 3 ∷ 106 ∷ 5 ∷ 7 ∷ 108 ∷ []
unfolding all_code
ascending = refl

zigzag :
    shape ((init sentinel >> insert_all (5 ∷ 1 ∷ 4 ∷ 2 ∷ 3 ∷ 8 ∷ 6 ∷ [])) fresh)
    ≡ 4 ∷ 2 ∷ 101 ∷ 103 ∷ 6 ∷ 105 ∷ 108 ∷ []
unfolding all_code
zigzag = refl

-- deletion of inner and outer nodes
shrinking :
    shape (
      (init sentinel
          >> insert_all (1 ∷ 2 ∷ 3 ∷ 4 ∷ 5 ∷ 6 ∷ 7 ∷ 8 ∷ [])
          >> delete_all (4 ∷ 1 ∷ 2 ∷ []))
        fresh)
    ≡ 5 ∷ 3 ∷ 107 ∷ 6 ∷ 8 ∷ []
unfolding all_code
shrinking = refl
