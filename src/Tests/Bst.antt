-- ===== src/Tests/Bst.antt =====
-- bst.c on a tree of three nodes: 10 below 20 below 30, at the addresses 2, 1 and 3; a fourth node
-- with the number 25 stands at the address 4.
use dsa.Bst.{Plain, insert, find, delete, preorder, height, num_cmp, shift}
use dsa.Bst.Delete.{delete-erase}
use dsa.Bst.Find.{find-Finds}
use dsa.Bst.Compare.{Compared, num_cmp-Compared}
use dsa.Bst.Height.{height_lem, num_cmp-IsOrder}
use dsa.Bst.Insert.{single, insert-insort}
use dsa.Bst.Shift.{Shifted, shift-Shifted}
use dsa.Tree.Hand.{IsAt-Hangs}
use dsa.Bst.Preorder.{preorder-free, preorder-visit}
use dsa.Tree.Visit.{visit, free-IsVisitor}
use dsa.Order.{IsOrder, IsSorted, insort, erase}
use dsa.Prelude.Int.{ℤ, pos}
use dsa.Prelude.{[], ◌≡◌, refl, false, ltb, if◌then◌else◌, ◌==◌, arith}
use dsa.Store.Returns.{Returns}
use dsa.Store.{Ptr, null, Store, ok, live, get_left, get_right, free}
use dsa.Tree
use dsa.Tree.Rep.{Same, IsTree, Becomes}
use dsa.Tree.Search.{Finds}
use dsa.Tree.Walk.{go_left}
use dsa.Tree.{Tree, leaf, node, top, on_left, inorder, count}

abbrev value : Ptr → ℤ
value p = if p == 1 then pos 20 else if p == 2 then pos 10 else if p == 3 then pos 30 else pos 25

abbrev pub three : Tree Plain
three = node (node leaf 2 tt leaf) 1 tt (node leaf 3 tt leaf)

abbrev pub memory : Store Plain
memory = record {
  root = 1;
  allocated = λ p. ltb p 5;
  parent = λ p. if p == 2 then 1 else if p == 3 then 1 else 0;
  left = λ p. if p == 1 then 2 else 0;
  right = λ p. if p == 1 then 3 else 0;
  rest = λ _. tt;
  printed = [];
}

pub three-IsTree : IsTree null memory three
unfolding live
three-IsTree = record {
  up = refl;
  down = (
    record { there = refl; parent = refl; left = refl; right = refl; rest = refl },
    (record { there = refl; parent = refl; left = refl; right = refl; rest = refl }, tt, tt),
    (record { there = refl; parent = refl; left = refl; right = refl; rest = refl }, tt, tt),
  );
  once = λ x. ground arith;
  absent = refl;
}

abbrev cmp : Ptr → Ptr → ℤ
cmp = num_cmp value

three-IsSorted : IsSorted cmp (inorder three)
unfolding num_cmp
three-IsSorted = ((refl, (refl, tt)), ((refl, tt), (tt, tt)))

insert-insort_example :
    Returns
      (λ _ s'.
        (t' : Tree Plain) × Becomes null memory three t' s'
        × (inorder t' ≡ insort cmp 4 (inorder three))
        × IsSorted cmp (inorder t'))
      (insert cmp 10 (pos 0) 4 memory)
insert-insort_example =
    insert-insort cmp 4 memory three (num_cmp-IsOrder value) 10 (pos 0) three-IsTree three-IsSorted
      (unfold live in record { there = refl; no_left = refl; no_right = refl; apart = refl })
      (omega arith)

find-Finds_example : (p : Ptr) × (find cmp 10 4 memory ≡ ok p memory) × Finds cmp 4 null three p
find-Finds_example =
    find-Finds cmp 4 memory (num_cmp-IsOrder value) 10 three three-IsTree three-IsSorted
      (omega arith)

delete-erase_example :
    Returns
      (λ _ s'.
        (t' : Tree Plain) × Becomes null memory three t' s'
        × (inorder t' ≡ erase 1 (inorder three))
        × IsSorted cmp (inorder t'))
      (delete 10 1 memory)
delete-erase_example =
    delete-erase cmp 10 1 memory three three-IsTree three-IsSorted (omega arith) (omega arith)

preorder-free_example :
    Returns
      (λ _ s'.
        (x : Ptr)
        → (s'.allocated x ≡ (if ltb 0 (count x three) then false else memory.allocated x))
          × (count x three ≡ 0 → Same memory s' x))
      (preorder 10 free memory.root memory)
preorder-free_example = preorder-free 10 memory three three-IsTree (omega arith)

preorder-visit_example :
    (preorder 10 free memory.root memory ≡ visit free (Tree.preorder three) memory)
    × Returns
        (λ _ s'. (x : Ptr) → count x three ≡ 0 → Same memory s' x)
        (preorder 10 free memory.root memory)
preorder-visit_example = preorder-visit free-IsVisitor 10 memory three three-IsTree (omega arith)

-- the node at 4 takes the place of the one at 2
shift-Shifted_example :
    Returns (Shifted memory (on_left 1 tt (node leaf 3 tt leaf) top) (single 4)) (shift 2 4 memory)
shift-Shifted_example =
    shift-Shifted (on_left 1 tt (node leaf 3 tt leaf) top) 2 (single 4) null
      (IsAt-Hangs null (on_left 1 tt (node leaf 3 tt leaf) top) leaf 2 tt leaf
        (go_left null top (node leaf 2 tt leaf) 1 tt (node leaf 3 tt leaf) three-IsTree))
      (unfold live in
        (record { there = refl; parent = refl; left = refl; right = refl; rest = refl }, tt, tt))
      (λ x. ground arith) (omega arith)

height_lem_example : height 10 memory.root memory ≡ ok (Tree.height three) memory
height_lem_example = height_lem memory 10 three three-IsTree (omega arith)

num_cmp-Compared_example :
    IsOrder (num_cmp value) × ((a b : Ptr) → Compared (value a) (value b) (num_cmp value a b))
num_cmp-Compared_example = num_cmp-Compared value

height_runs : height 10 1 memory ≡ ok 2 memory
unfolding height live get_left get_right
height_runs = refl
