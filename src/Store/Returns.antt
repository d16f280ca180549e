-- ===== src/Store/Returns.antt =====
-- Total correctness of a run: no fault, enough fuel, and a postcondition.
use dsa.Prelude.{◌≡◌, refl, subst}
use dsa.Store.{Store, Run, ok, Cmd, and_then}

pub data Returns {T A : Type 0} (P : A → Store T → Type 0) : Run T A → Type 0 where
  returns : {a : A} {s : Store T} → P a s → Returns P (ok a s)

module _ {T A : Type 0} {P : A → Store T → Type 0} where
  pub bind :
      {B : Type 0} {Q : B → Store T → Type 0} {r : Run T A} {k : A → Cmd T B}
      → Returns P r
      → ((a : A) (s : Store T) → P a s → Returns Q (k a s))
      → Returns Q (and_then r k)
  bind (returns p) next = next _ _ p

  pub mono :
      {Q : A → Store T → Type 0} {r : Run T A}
      → Returns P r
      → ((a : A) (s : Store T) → P a s → Q a s)
      → Returns Q r
  mono (returns p) weaken = returns (weaken _ _ p)

  pub of_eq : {r : Run T A} (a : A) (s : Store T) → r ≡ ok a s → P a s → Returns P r
  of_eq a s e p = rw e (returns p)

  -- the run itself
  pub ran : {r : Run T A} → Returns P r → (a : A) × (s : Store T) × (r ≡ ok a s) × P a s
  ran (returns {a} {s} p) = (a, s, refl, p)

  pub of_ok : {a : A} {s : Store T} → Returns P (ok a s) → P a s
  of_ok (returns p) = p

  -- a known result of the run
  pub at_ok : {r : Run T A} (a : A) (s : Store T) → Returns P r → r ≡ ok a s → P a s
  at_ok a s q e = of_ok (subst (Returns P) e q)
