-- ===== src/Tests/RbTree.antt =====
-- rbtree.c on a tree of three nodes: 1 below 2 below 3, each at the address that is its number, 2 black
-- above two red nodes. The sentinel stands at the address 10.
use dsa.Bst.Height.{num_cmp-IsOrder}
use dsa.Bst.{num_cmp}
use dsa.Order.{IsSorted, equal}
use dsa.Prelude.Int.{pos}
use dsa.Prelude.{[], ℕ, ◌+◌, ◌*◌, ◌^◌, ◌≤◌, ◌≡◌, refl, true, false, ltb, if◌then◌else◌, ◌==◌, arith}
use dsa.Rb.Bounds.{height-bound}
use dsa.Rb.Insert.Lookup.{insert-find}
use dsa.Rb.Insert.Whole.{IsFree, Inserted, insert-Inserted}
use dsa.Rb.Insert.{insert}
use dsa.Rb.State.{IsRbTree}
use dsa.Rb.Defs.{Red, left, init, find, preorder, height, rotate}
use dsa.Rb.Delete.Whole.{Deleted, delete-Deleted}
use dsa.Rb.Delete.{delete}
use dsa.Rb.Find.{find-Found}
use dsa.Rb.Preorder.{preorder-frees}
use dsa.Rb.Rotate.Rotated.{Rotated, rotate-Rotated}
use dsa.Rb.Sentinel.{IsSentinel, init-IsTree, height-longest}
use dsa.Store.Returns.{Returns}
use dsa.Store.{Ptr, null, Store, ok, live, free, ◌>>◌}
use dsa.Tree
use dsa.Tree.Rep.{Same, IsTree}
use dsa.Tree.Search.{Finds}
use dsa.Tree.{Tree, leaf, node, top, inorder, count, size}

abbrev low : Tree Red
low = node leaf 1 true leaf

abbrev high : Tree Red
high = node leaf 3 true leaf

abbrev pub three : Tree Red
three = node low 2 false high

abbrev pub memory : Store Red
memory = record {
  root = 2;
  allocated = λ p. ltb p 11;
  parent = λ p. if p == 10 then 0 else if p == 2 then 10 else 2;
  left = λ p. if p == 10 then 0 else if p == 2 then 1 else 10;
  right = λ p. if p == 10 then 0 else if p == 2 then 3 else 10;
  rest = λ p. if p == 1 then true else p == 3;
  printed = [];
}

pub three-IsTree : IsTree 10 memory three
unfolding live
three-IsTree = record {
  up = refl;
  down = (
    record { there = refl; parent = refl; left = refl; right = refl; rest = refl },
    (record { there = refl; parent = refl; left = refl; right = refl; rest = refl }, tt, tt),
    (record { there = refl; parent = refl; left = refl; right = refl; rest = refl }, tt, tt),
  );
  once = λ x. ground arith;
  absent = refl;
}

pub memory-IsSentinel : IsSentinel 10 memory
unfolding live
memory-IsSentinel = record { there = refl; left = refl; right = refl; black = refl }

three-IsSorted : IsSorted (num_cmp pos) (inorder three)
unfolding num_cmp
three-IsSorted = ((refl, (refl, tt)), ((refl, tt), (tt, tt)))

find-Found_example :
    (p : Ptr) × (find 10 (num_cmp pos) 9 7 memory ≡ ok p memory)
    × Finds (num_cmp pos) 7 null three p
find-Found_example =
    find-Found 10 (num_cmp pos) 7 memory (num_cmp-IsOrder pos) 9 three three-IsTree three-IsSorted
      (omega arith)

init-IsTree_example : Returns (λ _ s'. IsTree 10 s' leaf × IsSentinel 10 s') (init 10 memory)
init-IsTree_example = init-IsTree 10 memory (unfold live in refl)

height-longest_example : height 9 memory.root memory ≡ ok (Tree.height three) memory
height-longest_example =
    height-longest 10 memory memory-IsSentinel 9 three three-IsTree (omega arith)

rotate-Rotated_example :
    Returns
      (λ _ s'. Rotated 10 memory top three (node (node low 2 false leaf) 3 true leaf) s')
      (rotate left 2 memory)
rotate-Rotated_example =
    rotate-Rotated 10 memory top left low 2 false leaf 3 true leaf (unfold live in refl)
      three-IsTree

preorder-frees_example :
    Returns
      (λ _ s'.
        (x : Ptr)
        → (s'.allocated x ≡ (if ltb 0 (count x three) then false else memory.allocated x))
          × (count x three ≡ 0 → Same memory s' x))
      (preorder 9 free memory.root memory)
preorder-frees_example =
    preorder-frees 10 9 memory three memory-IsSentinel three-IsTree (omega arith)

pub three-IsRbTree : IsRbTree (num_cmp pos) 10 memory three
three-IsRbTree = record {
  held = record { at = three-IsTree; sentinel = memory-IsSentinel };
  colours = record {
    root = refl;
    height = 1;
    coloured =
        (0, refl, refl, refl, (0, refl, refl, refl, refl, refl), (0, refl, refl, refl, refl, refl));
  };
  sorted = three-IsSorted;
}

four-IsFree : IsFree 10 memory 4 three
four-IsFree = record {
  there = unfold live in refl;
  apart = refl;
  inner = λ e. absurd (omega (arith, e));
}

insert-Inserted_example :
    Returns
      (λ _. Inserted (num_cmp pos) 10 4 memory three)
      (insert 10 (num_cmp pos) 9 (pos 7) 4 memory)
insert-Inserted_example =
    insert-Inserted (num_cmp pos) 10 4 memory three (num_cmp-IsOrder pos) 9 (pos 7) three-IsRbTree
      four-IsFree (omega arith)

insert-find_example :
    Returns
      (λ p s'. Inserted (num_cmp pos) 10 4 memory three s' × (equal (num_cmp pos) 4 p ≡ true))
      ((insert 10 (num_cmp pos) 9 (pos 7) 4 >> find 10 (num_cmp pos) 9 4) memory)
insert-find_example =
    insert-find (num_cmp pos) 4 10 memory three (num_cmp-IsOrder pos) 9 (pos 7) three-IsRbTree
      four-IsFree (omega arith)

height-bound_example :
    (h n : ℕ) × (height 9 memory.root memory ≡ ok h memory) × (h ≤ 2 * n) × (2 ^ n ≤ size three + 1)
height-bound_example = height-bound (num_cmp pos) 10 memory three 9 three-IsRbTree (omega arith)

delete-Deleted_example :
    Returns (λ _. Deleted (num_cmp pos) 10 2 memory three) (delete 10 9 2 memory)
delete-Deleted_example =
    delete-Deleted (num_cmp pos) 10 2 memory three 9 three-IsRbTree (omega arith) (omega arith)
