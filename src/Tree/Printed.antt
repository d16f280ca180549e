-- ===== src/Tree/Printed.antt =====
-- Output does not change a tree.
use dsa.Prelude.{refl, List, ◌++◌}
use dsa.Store.{Ptr, Store, Line}
use dsa.Tree.Rep.{Same}

abbrev pub printing : {T : Type 0} → Store T → List (Line T) → Store T
printing s ls = record s { printed = s.printed ++ ls }

pub printed-Same :
    {T : Type 0} (s : Store T) (ls : List (Line T)) (x : Ptr) → Same s (record s { printed = ls }) x
printed-Same s ls x = (record { allocated = refl; left = refl; right = refl; rest = refl }, refl)
