-- ===== src/Tree/Rep.antt =====
-- What it means that the pointers of a store stand for a tree, and for a tree with a hole.
use dsa.Prelude.{◌+◌, ◌≤◌, ◌≡◌, true}
use dsa.Store.{Ptr, Store, live}
use dsa.Tree.{Tree, leaf, node, Hole, top, on_left, on_right, ptr, above, count, count_hole}

module _ {T : Type 0} where
  -- the five facts that a node of a tree needs
  pub record IsNode (s : Store T) (a p l r : Ptr) (c : T) : Type 0 where
    pub there : live s.allocated a ≡ true
    pub parent : s.parent a ≡ p
    pub left : s.left a ≡ l
    pub right : s.right a ≡ r
    pub rest : s.rest a ≡ c

  -- two stores hold the same node at `x`, but perhaps for its parent
  pub record SameBelow (s s' : Store T) (x : Ptr) : Type 0 where
    pub allocated : s'.allocated x ≡ s.allocated x
    pub left : s'.left x ≡ s.left x
    pub right : s'.right x ≡ s.right x
    pub rest : s'.rest x ≡ s.rest x

  abbrev pub Same : Store T → Store T → Ptr → Type 0
  Same s s' x = SameBelow s s' x × (s'.parent x ≡ s.parent x)

module _ {T : Type 0} (nil : Ptr) where
  -- `t` hangs below the node at `p`
  abbrev pub IsRep : Store T → Ptr → Tree T → Type 0
  IsRep s p leaf = Unit {0}
  IsRep s p (node l a c r) = IsNode s a p (ptr nil l) (ptr nil r) c × IsRep s a l × IsRep s a r

  -- all but a subtree, and the pointer `q` to that subtree
  abbrev pub IsRepHole : Store T → Ptr → Hole T → Type 0
  IsRepHole s q top = s.root ≡ q
  IsRepHole s q (on_left a c r up) =
      IsNode s a (above nil up) q (ptr nil r) c × IsRep s a r × IsRepHole s a up
  IsRepHole s q (on_right l a c up) =
      IsNode s a (above nil up) (ptr nil l) q c × IsRep s a l × IsRepHole s a up

  -- the store holds the tree `plug h t`, each node at an address of its own
  pub record IsAt (s : Store T) (h : Hole T) (t : Tree T) : Type 0 where
    pub up : IsRepHole s (ptr nil t) h
    pub down : IsRep s (above nil h) t
    pub once : (x : Ptr) → count_hole x h + count x t ≤ 1
    pub absent : count_hole nil h + count nil t ≡ 0

  abbrev pub IsTree : Store T → Tree T → Type 0
  IsTree s t = IsAt s top t

  -- the tree `t'` stands in the store, and the nodes that are in neither tree are as before
  pub record Becomes (s : Store T) (t t' : Tree T) (s' : Store T) : Type 0 where
    pub tree : IsTree s' t'
    pub allocated : s'.allocated ≡ s.allocated
    pub same : (x : Ptr) → count x t + count x t' ≡ 0 → Same s s' x
