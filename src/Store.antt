-- ===== src/Store.antt =====
-- The memory of bst.c and rbtree.c: nodes at addresses, one array for each field of the node, and
-- the root field of the tree's own struct.
pub mod Access
pub mod Returns
use dsa.Prelude.Int.{ℤ}
use dsa.Prelude.{
  ℕ, ◌+◌, ◌^◌, ltb, Bool, false, not, ◌&&◌, ◌==◌, if◌then◌else◌, update, List, [], ◌∷◌, ◌++◌,
}

abbrev pub Ptr : Type 0
Ptr = ℕ

abbrev pub null : Ptr
null = 0

-- What the programs print to their standard output: the start of a graph, a style, a node with its number, an edge
-- between two addresses, the point that stands for no child, and the end of a graph.
pub data Line (T : Type 0) : Type 0 where
  graph_line style_line end_line : Line T
  node_line : Ptr → ℤ → T → Line T
  edge_line : Ptr → Ptr → Line T
  point_line : Ptr → Line T

-- `rest` is what a node holds beside its three pointers: the colour in rbtree.c, nothing in bst.c.
-- `allocated` says which addresses hold a node.
pub record Store (T : Type 0) : Type 0 where
  pub root : Ptr
  pub allocated : Ptr → Bool
  pub parent : Ptr → Ptr
  pub left : Ptr → Ptr
  pub right : Ptr → Ptr
  pub rest : Ptr → T
  pub printed : List (Line T)

-- A fault is an access through NULL or to an address that holds no node, or an `int` that overflows.
pub data Run (T A : Type 0) : Type 0 where
  ok : A → Store T → Run T A
  fault : Run T A
  out_of_fuel : Run T A

abbrev pub Cmd : Type 0 → Type 0 → Type 0
Cmd T A = Store T → Run T A

abbrev pub pure : {T A : Type 0} → A → Cmd T A
pure = ok

module _ {T A B : Type 0} where
  abbrev pub and_then : Run T A → (A → Cmd T B) → Run T B
  and_then (ok a s) k = k a s
  and_then fault k = fault
  and_then out_of_fuel k = out_of_fuel

  infixl 5 ◌>>=◌ ◌>>◌
  abbrev pub ◌>>=◌ : Cmd T A → (A → Cmd T B) → Cmd T B
  m >>= k = λ s. and_then (m s) k

  abbrev pub ◌>>◌ : Cmd T A → Cmd T B → Cmd T B
  m >> n = m >>= λ _. n

-- `p` may be read and written: it is not NULL and holds a node.
unfoldable pub live : (Ptr → Bool) → Ptr → Bool
live allocated p = not (p == null) && allocated p

module _ {T : Type 0} where
  abbrev pub get_root : Cmd T Ptr
  get_root s = ok s.root s

  abbrev pub set_root : Ptr → Cmd T (Unit {0})
  set_root p s = ok tt (record s { root = p })

  unfoldable pub get_parent : Ptr → Cmd T Ptr
  get_parent p s = if live s.allocated p then ok (s.parent p) s else fault

  unfoldable pub get_left : Ptr → Cmd T Ptr
  get_left p s = if live s.allocated p then ok (s.left p) s else fault

  unfoldable pub get_right : Ptr → Cmd T Ptr
  get_right p s = if live s.allocated p then ok (s.right p) s else fault

  unfoldable pub get_rest : Ptr → Cmd T T
  get_rest p s = if live s.allocated p then ok (s.rest p) s else fault

  unfoldable pub set_parent : Ptr → Ptr → Cmd T (Unit {0})
  set_parent p q s =
      if live s.allocated p then ok tt (record s { parent = update s.parent p q }) else fault

  unfoldable pub set_left : Ptr → Ptr → Cmd T (Unit {0})
  set_left p q s =
      if live s.allocated p then ok tt (record s { left = update s.left p q }) else fault

  unfoldable pub set_right : Ptr → Ptr → Cmd T (Unit {0})
  set_right p q s =
      if live s.allocated p then ok tt (record s { right = update s.right p q }) else fault

  unfoldable pub set_rest : Ptr → T → Cmd T (Unit {0})
  set_rest p c s =
      if live s.allocated p then ok tt (record s { rest = update s.rest p c }) else fault

  -- `++n` on an `int`: what it does past the largest one is undefined, a fault here
  unfoldable pub increment : ℕ → Cmd T ℕ
  increment n s = if ltb (n + 1) (2 ^ 31) then ok (n + 1) s else fault

  -- `printf`
  abbrev pub emit : Line T → Cmd T (Unit {0})
  emit l s = ok tt (record s { printed = s.printed ++ l ∷ [] })

  -- `free` of the C library on a node: the address holds none from here on.
  unfoldable pub free : Ptr → Cmd T (Unit {0})
  free p s =
      if live s.allocated p
      then ok tt (record s { allocated = update s.allocated p false })
      else fault
