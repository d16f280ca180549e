-- ===== src/Store/Access.antt =====
-- Reads and writes of the fields of a node that is there.
use dsa.Prelude.{ℕ, ◌+◌, ◌^◌, ◌<◌, ◌≡◌, ◌≢◌, ◌==◌, Bool, true, false, update, arith}
use dsa.Store.{
  Ptr, null, Store, ok, live, get_parent, get_left, get_right, get_rest, set_parent, set_left,
  set_right, set_rest, increment,
}

module _ {T : Type 0} (s : Store T) (p : Ptr) (there : live s.allocated p ≡ true) where
  pub get_parent-ok : get_parent p s ≡ ok (s.parent p) s
  unfolding get_parent
  get_parent-ok = rw there

  pub get_left-ok : get_left p s ≡ ok (s.left p) s
  unfolding get_left
  get_left-ok = rw there

  pub get_right-ok : get_right p s ≡ ok (s.right p) s
  unfolding get_right
  get_right-ok = rw there

  pub get_rest-ok : get_rest p s ≡ ok (s.rest p) s
  unfolding get_rest
  get_rest-ok = rw there

  pub set_parent-ok :
      (q : Ptr) → set_parent p q s ≡ ok tt (record s { parent = update s.parent p q })
  unfolding set_parent
  set_parent-ok q = rw there

  pub set_left-ok : (q : Ptr) → set_left p q s ≡ ok tt (record s { left = update s.left p q })
  unfolding set_left
  set_left-ok q = rw there

  pub set_right-ok : (q : Ptr) → set_right p q s ≡ ok tt (record s { right = update s.right p q })
  unfolding set_right
  set_right-ok q = rw there

  pub set_rest-ok : (c : T) → set_rest p c s ≡ ok tt (record s { rest = update s.rest p c })
  unfolding set_rest
  set_rest-ok c = rw there

pub live-ne : (al : Ptr → Bool) (p : Ptr) → live al p ≡ true → p ≢ null
unfolding live
live-ne al p h = ground arith

pub live-not_null : (al : Ptr → Bool) (p : Ptr) → live al p ≡ true → (p == null) ≡ false
unfolding live
live-not_null al p h = ground arith

pub increment-ok :
    {T : Type 0} (n : ℕ) (s : Store T) → n + 1 < 2 ^ 31 → increment n s ≡ ok (n + 1) s
unfolding increment
increment-ok n s small = ground arith
