-- ===== src/Tests/BstMain.antt =====
-- `main` and `print_dot` of bst.c on a short input.
use dsa.Console.{Reply, got}
use dsa.Prelude.Int.{ℤ, pos}
use dsa.Prelude.{ℕ, ◌+◌, ◌-◌, ◌≡◌, refl, true, false, ◌==◌, List, [], ◌∷◌, ◌++◌, arith}
use dsa.Store.{live, Ptr, Store, ok, graph_line, end_line}
use dsa.Console.Ending.{EndsWell}
use dsa.Store.Returns.{Returns}
use dsa.Tests.Input.{left_at, right_at, decimal, first_free, some_memory, zeros}
use dsa.Tree.Printed.{printing}
use dsa.Bst.{Plain}
use dsa.Bst.Dot.{dot, print_dot, print_dot-lines}
use dsa.Tree.Array.{IsArray}
use dsa.Bst.Statistics.Measured.{Measured, one_tree-Heights}
use dsa.Bst.Statistics.{one_tree}
use dsa.Bst.Main.{main}
use dsa.Bst.Main.Ends.{main-frees}
use dsa.Tests.Bst.{memory, three, three-IsTree}

-- 5, 7, an empty line, 5, 7
abbrev numbers : List Reply
numbers =
    got (b'5' ∷ 10 ∷ []) false
    ∷ got (b'7' ∷ 10 ∷ []) false
    ∷ got (10 ∷ []) false
    ∷ got (b'5' ∷ 10 ∷ []) false
    ∷ got (b'7' ∷ []) true
    ∷ []

abbrev bst_stack : Store Plain
bst_stack = record {
  root = 7;
  allocated = λ p. p == 11;
  parent = λ p. 7;
  left = λ p. 7;
  right = λ p. 7;
  rest = λ p. tt;
  printed = [];
}

main-frees_example :
    Returns
      (EndsWell (first_free 20 0) numbers bst_stack.allocated)
      (main 11 left_at right_at 9 (pos 0) decimal (first_free 20 0) zeros numbers bst_stack)
main-frees_example =
    main-frees 11 left_at right_at 9 (pos 0) decimal (first_free 20 0) bst_stack zeros numbers
      some_memory refl (omega arith)

print_dot-lines_example :
    print_dot pos left_at right_at 9 1 memory
    ≡ ok tt (printing memory (graph_line ∷ (dot pos left_at right_at three ++ (end_line ∷ []))))
print_dot-lines_example =
    print_dot-lines pos left_at right_at 9 memory three three-IsTree (omega arith)

-- two nodes, at the addresses 1 and 2
abbrev second_of : ℕ → Ptr
second_of j = j + 1

abbrev falling : ℕ → ℤ
falling j = pos (9 - j)

pair-IsArray : IsArray second_of 0 2 memory.allocated
unfolding live
pair-IsArray = record {
  there = λ j i. ground arith;
  apart = λ j i e. omega (arith, i, e);
  distinct = λ i j low high e. omega (arith, e);
}

one_tree-Heights_example :
    Returns
      (λ r s'. Measured second_of 9 (pos 0) falling 2 r.0 r.1 s')
      (one_tree second_of 9 (pos 0) falling 2 zeros memory)
one_tree-Heights_example =
    one_tree-Heights second_of 9 (pos 0) falling 2 memory zeros pair-IsArray (omega arith)
      (omega arith)
