-- ===== src/Tree/Hook.antt =====
-- The store after a hole's pointer is redirected.
use dsa.Prelude.{◌+◌, ◌≤◌, ◌≡◌, refl, update, arith}
use dsa.Store.{Ptr, Store}
use dsa.Tree.{Hole, top, on_left, on_right, count, count_hole}
use dsa.Tree.Distinct.{ne_of_count, ne_of_count_hole}
use dsa.Tree.Frame.{IsRep-Same, IsRepHole-Same, set_left-Same, set_right-Same}
use dsa.Tree.Rep.{Same, IsRepHole}

module _ {T : Type 0} where
  abbrev pub hook_root : Hole T → Ptr → Ptr → Ptr
  hook_root top w old = w
  hook_root (on_left a c r up) w old = old
  hook_root (on_right l a c up) w old = old

  abbrev pub hook_left : Hole T → Ptr → (Ptr → Ptr) → Ptr → Ptr
  hook_left top w f = f
  hook_left (on_left a c r up) w f = update f a w
  hook_left (on_right l a c up) w f = f

  abbrev pub hook_right : Hole T → Ptr → (Ptr → Ptr) → Ptr → Ptr
  hook_right top w f = f
  hook_right (on_left a c r up) w f = f
  hook_right (on_right l a c up) w f = update f a w

  abbrev pub hook : Store T → Hole T → Ptr → Store T
  hook s h w = record s {
    root = hook_root h w s.root;
    left = hook_left h w s.left;
    right = hook_right h w s.right;
  }

  pub hook_left-out :
      (h : Hole T) (w : Ptr) (f : Ptr → Ptr) (x : Ptr)
      → count_hole x h ≡ 0
      → hook_left h w f x ≡ f x
  hook_left-out top w f x out = refl
  hook_left-out (on_left a c r up) w f x out = ground arith
  hook_left-out (on_right l a c up) w f x out = refl

  pub hook_right-out :
      (h : Hole T) (w : Ptr) (f : Ptr → Ptr) (x : Ptr)
      → count_hole x h ≡ 0
      → hook_right h w f x ≡ f x
  hook_right-out top w f x out = refl
  hook_right-out (on_left a c r up) w f x out = refl
  hook_right-out (on_right l a c up) w f x out = ground arith

module _ {T : Type 0} where
  pub hook-Same :
      (s : Store T) (h : Hole T) (w x : Ptr) → count_hole x h ≡ 0 → Same s (hook s h w) x
  hook-Same s h w x out = (
    record {
      allocated = refl;
      left = hook_left-out h w s.left x out;
      right = hook_right-out h w s.right x out;
      rest = refl;
    },
    refl,
  )

module _ {T : Type 0} (nil : Ptr) (s : Store T) where
  -- after the redirection the hole leads to `w`
  pub IsRepHole-hook :
      (h : Hole T) (q w : Ptr)
      → IsRepHole nil s q h
      → ((x : Ptr) → count_hole x h ≤ 1)
      → IsRepHole nil (hook s h w) w h
  IsRepHole-hook top q w d once = refl
  IsRepHole-hook (on_left a c r up) q w (n, dr, d) once =
      let o : count a r + count_hole a up ≡ 0 = ground (arith, once a) in
      (
        ground arith,
        IsRep-Same nil r a dr (λ x i. set_left-Same s a w x (ne_of_count x a r i (omega arith))),
        IsRepHole-Same nil up a d
            (λ x i. set_left-Same s a w x (ne_of_count_hole x a up i (omega arith))) refl,
      )
  IsRepHole-hook (on_right l a c up) q w (n, dl, d) once =
      let o : count a l + count_hole a up ≡ 0 = ground (arith, once a) in
      (
        ground arith,
        IsRep-Same nil l a dl (λ x i. set_right-Same s a w x (ne_of_count x a l i (omega arith))),
        IsRepHole-Same nil up a d
            (λ x i. set_right-Same s a w x (ne_of_count_hole x a up i (omega arith))) refl,
      )
