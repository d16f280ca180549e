-- ===== src/Rb/Session/Memory.antt =====
-- What the writes of `calloc` and `free` leave of a red-black tree.
use dsa.Prelude.{◌<◌, ◌≡◌, ◌≢◌, ◌∙◌, arith}
use dsa.Rb.Change.{Held, IsSentinel-SameBelow}
use dsa.Rb.Defs.{Red}
use dsa.Rb.Session.{zeroed}
use dsa.Store.{Ptr, Store}
use dsa.Tree.Frame.{IsRep-Same}
use dsa.Tree.Rep.{SameBelow, Same}
use dsa.Tree.{Tree, top, count}

module _ {nil : Ptr} (s s' : Store Red) where
  pub Held-Same :
      (t : Tree Red)
      → Held nil s top t
      → ((x : Ptr) → 0 < count x t → Same s s' x)
      → SameBelow s s' nil
      → s'.root ≡ s.root
      → Held nil s' top t
  Held-Same t held same own e = record {
    at = record {
      up = e ∙ held.at.up;
      down = IsRep-Same nil t nil held.at.down same;
      once = held.at.once;
      absent = held.at.absent;
    };
    sentinel = IsSentinel-SameBelow nil s s' own held.sentinel;
  }

-- a write to a node that is not in the tree
pub zeroed-Same : (s : Store Red) (p x : Ptr) → x ≢ p → Same s (zeroed p s) x
zeroed-Same s p x ne = (
  record {
    allocated = ground arith;
    left = ground arith;
    right = ground arith;
    rest = ground arith;
  },
  ground arith,
)
