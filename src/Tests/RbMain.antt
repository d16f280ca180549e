-- ===== src/Tests/RbMain.antt =====
-- `main` and `print_dot` of rbtree.c on a short input.
use dsa.Console.{Reply, got, Conversion}
use dsa.Prelude.Int.{ℤ, pos}
use dsa.Prelude.{
  ◌+◌, ◌-◌, ℕ, ◌≡◌, refl, true, false, ◌==◌, if◌then◌else◌, List, [], ◌∷◌, ◌++◌, arith,
}
use dsa.Store.{Ptr, Store, ok, graph_line, style_line, end_line, live}
use dsa.Arguments.{Text, statistics, test_option, sizes, parse_args}
use dsa.Arguments.Sizes.{Asks, parse_args-Asks}
use dsa.Console.Ending.{EndsWell}
use dsa.Store.Returns.{Returns}
use dsa.Tests.Input.{digits, left_at, right_at, decimal, first_free, some_memory, zeros}
use dsa.Tree.Printed.{printing}
use dsa.Rb.Defs.{Red}
use dsa.Rb.Dot.{dot, print_dot, print_dot-dot}
use dsa.Rb.Main.{main}
use dsa.Rb.Main.Ends.{main-ends}
use dsa.Tree.Array.{IsArray}
use dsa.Rb.Statistics.Measured.{Measured, one_tree-Measured}
use dsa.Rb.Statistics.{one_tree}
use dsa.Tests.RbTree.{memory, three, three-IsTree, memory-IsSentinel}

-- `i`, 5, `p`, `d`, 7
abbrev lines : List Reply
lines =
    got (b'i' ∷ 10 ∷ []) false
    ∷ got (b'5' ∷ 10 ∷ []) false
    ∷ got (b'p' ∷ 10 ∷ []) false
    ∷ got (b'd' ∷ 10 ∷ []) false
    ∷ got (b'7' ∷ 10 ∷ []) false
    ∷ []

abbrev rb_stack : Store Red
rb_stack = record {
  root = 0;
  allocated = λ p. if p == 10 then true else p == 11;
  parent = λ p. 7;
  left = λ p. 7;
  right = λ p. 7;
  rest = λ p. true;
  printed = [];
}

main-ends_example :
    Returns
      (EndsWell (first_free 20 0) lines rb_stack.allocated)
      (main 10 11 left_at right_at 9 (pos 0) decimal (first_free 20 0) 9 zeros lines rb_stack)
unfolding live
main-ends_example =
    main-ends 10 11 left_at right_at 9 (pos 0) decimal (first_free 20 0) rb_stack zeros lines
      some_memory refl refl (omega arith)

print_dot-dot_example :
    print_dot pos left_at right_at 9 2 memory
    ≡ ok tt (
        printing memory
          (graph_line ∷ style_line ∷ (dot pos left_at right_at three ++ (end_line ∷ []))))
print_dot-dot_example =
    print_dot-dot pos left_at right_at 10 9 memory three memory-IsSentinel three-IsTree
      (omega arith)

-- `-test=3,4 x`
abbrev sized : List Text
sized = (test_option ++ (b'=' ∷ b'3' ∷ b',' ∷ b'4' ∷ [])) ∷ (b'x' ∷ []) ∷ []

abbrev pub natural : Text → Conversion ℕ
natural text = record { value = (digits 0 text).0; errno = pos 0; rest = (digits 0 text).1 }

sized_action : parse_args natural sized ≡ statistics 3 4 ((b'x' ∷ []) ∷ [])
unfolding parse_args sizes
sized_action = refl

parse_args-Asks_example : Asks natural sized (parse_args natural sized)
parse_args-Asks_example = parse_args-Asks natural sized

-- two nodes, at the addresses 1 and 2
abbrev second_of : ℕ → Ptr
second_of j = j + 1

abbrev falling : ℕ → ℤ
falling j = pos (9 - j)

pair-IsArray : IsArray second_of 10 2 memory.allocated
unfolding live
pair-IsArray = record {
  there = λ j i. ground arith;
  apart = λ j i e. omega (arith, i, e);
  distinct = λ i j low high e. omega (arith, e);
}

one_tree-Measured_example :
    Returns
      (λ r s'. Measured second_of 10 9 (pos 0) falling 2 r.0 r.1 s')
      (one_tree second_of 10 9 (pos 0) falling 2 zeros memory)
unfolding live
one_tree-Measured_example =
    one_tree-Measured second_of 10 9 (pos 0) falling 2 memory zeros pair-IsArray refl (omega arith)
      (omega arith)
