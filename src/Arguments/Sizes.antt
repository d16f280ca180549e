-- ===== src/Arguments/Sizes.antt =====
-- Which texts `-test` takes, and what the arguments come to.
use dsa.Arguments.{
  Text, same, strip_prefix, starts, tail, is_refused, sizes, Action, interactive, usage_exit,
  statistics, test_option, help_option, parse_args,
}
use dsa.Console.{Conversion, at_nul}
use dsa.Prelude.Int.{ℤ, pos, negsuc, eqb_ℤ}
use dsa.Prelude.{
  ℕ, ◌≢◌, ==_false, ==→ne, ◌≡◌, inl, inr, refl, Bool, true, false, not, ◌||◌, ◌&&◌, some, some-eq,
  ==_refl, subst, sym, ap, ◌∙◌, ==→eq, ◌==◌, Bool-cases, Option-cases, List, [], ◌∷◌, ◌++◌, length,
  arith,
}

or_false : (a b : Bool) → (a || b) ≡ false → (a ≡ false) × (b ≡ false)
or_false true b e = cc
or_false false b e = (refl, e)

of_not : (a : Bool) → not a ≡ false → a ≡ true
of_not true e = refl
of_not false e = cc

starts-cons : (c : ℕ) (s : Text) → starts c s ≡ true → s ≡ c ∷ tail s
starts-cons c [] e = cc
starts-cons c (b ∷ s) e = ap (λ x. x ∷ s) (==→eq e)

and_true : (a b : Bool) → (a && b) ≡ true → (a ≡ true) × (b ≡ true)
and_true true b e = (refl, e)
and_true false b e = cc

same_eq : (s t : Text) → same s t ≡ true → s ≡ t
same_eq [] [] e = refl
same_eq [] (c ∷ t) e = cc
same_eq (b ∷ s) [] e = cc
same_eq (b ∷ s) (c ∷ t) e =
    let (p, q) = and_true (b == c) (same s t) e in
    ap (λ x. x ∷ s) (==→eq p) ∙ ap (λ x. c ∷ x) (same_eq s t q)

strip_prefix-append : (t s : Text) → strip_prefix t (t ++ s) ≡ some s
strip_prefix-append [] s = refl
strip_prefix-append (c ∷ t) s = rw (==_refl c) (strip_prefix-append t s)

strip_prefix-some : (t s u : Text) → strip_prefix t s ≡ some u → s ≡ t ++ u
strip_prefix-some [] s u e = some-eq e
strip_prefix-some (c ∷ t) [] u e = cc
strip_prefix-some (c ∷ t) (b ∷ s) u e = elim (Bool-cases (b == c)) [
  | inl f ↦
      let q = strip_prefix-some t s u (rw f at e) in ap (λ x. x ∷ s) (==→eq f) ∙ ap (λ x. c ∷ x) q
  | inr f ↦ cc (rw f at e)
]

length-nil : (xs : List Text) → length xs ≡ 0 → xs ≡ []
length-nil [] e = refl
length-nil (x ∷ xs) e = absurd (omega (arith, e))

help_alone :
    (a : Text) (rest : List Text)
    → a ≡ help_option
    → rest ≡ []
    → (length rest == 0) && same a help_option ≡ true
help_alone a rest e f = rw (e, f) refl

-- a text ends at its zero byte
pub data IsEnd : Text → Type 0 where
  no_byte : IsEnd []
  zero_byte : (rest : Text) → IsEnd (0 ∷ rest)

at_nul-IsEnd : (s : Text) → at_nul s ≡ true → IsEnd s
at_nul-IsEnd [] e = no_byte
at_nul-IsEnd (b ∷ s) e = subst (λ x. IsEnd (x ∷ s)) (sym (==→eq e)) (zero_byte s)

IsEnd-at_nul : (s : Text) → IsEnd s → at_nul s ≡ true
IsEnd-at_nul _ no_byte = refl
IsEnd-at_nul _ (zero_byte rest) = refl

pos_zero : (z : ℤ) → eqb_ℤ z (pos 0) ≡ true → z ≡ pos 0
pos_zero (pos n) e = ap pos (omega (arith, ==→eq e))
pos_zero (negsuc n) e = absurd (omega (arith, ==→eq e))

module _ (strtoul : Text → Conversion ℕ) where
  -- `strtoul` takes a number from the front of the text, sets no `errno`, and leaves a rest that is not the whole text
  pub record Reads (s : Text) (n : ℕ) (rest : Text) : Type 0 where
    pub value : (strtoul s).value ≡ n
    pub left : (strtoul s).rest ≡ rest
    pub no_error : (strtoul s).errno ≡ pos 0
    pub taken : length (strtoul s).rest ≢ length s

  -- the conversion is taken if and only if that holds
  Reads-taken : (s : Text) (n : ℕ) (rest : Text) → Reads s n rest → is_refused s (strtoul s) ≡ false
  Reads-taken s n rest r = rw (r.no_error, ==_false r.taken) refl

  taken-Reads :
      (s : Text) → is_refused s (strtoul s) ≡ false → Reads s (strtoul s).value (strtoul s).rest
  taken-Reads s e =
      let (p, q) = or_false (not (eqb_ℤ (strtoul s).errno (pos 0))) _ e in
      record {
        value = refl;
        left = refl;
        no_error = pos_zero (strtoul s).errno (of_not _ p);
        taken = ==→ne q;
      }

  -- the text after `-test` is empty, or `=`, a number, a comma and a number
  pub data IsSizes : Text → ℕ → ℕ → Type 0 where
    no_sizes : IsSizes [] 0 0
    two_sizes :
        {s t rest : Text} {n m : ℕ}
        → Reads s n (b',' ∷ t)
        → Reads t m rest
        → IsEnd rest
        → IsSizes (b'=' ∷ s) n m

  sizes-some : (s : Text) (n m : ℕ) → IsSizes s n m → sizes strtoul s ≡ some (n, m)
  unfolding sizes
  sizes-some _ _ _ no_sizes = refl
  sizes-some _ n m (two_sizes {s} {t} {rest} r q z) =
      rw (Reads-taken s n (b',' ∷ t) r, r.left)
        (rw (Reads-taken t m rest q) (rw (q.left, IsEnd-at_nul rest z, r.value, q.value) refl))

  some-IsSizes : (s : Text) (n m : ℕ) → sizes strtoul s ≡ some (n, m) → IsSizes s n m
  unfolding sizes
  some-IsSizes [] n m e = let p = some-eq e in subst (λ x. IsSizes [] x.0 x.1) p no_sizes
  some-IsSizes (b ∷ s) n m e = elim (Bool-cases (b == b'=')) [
    | inr f ↦ cc (rw f at e)
    | inl f ↦
        let e1 = rw f at e in
        elim (Bool-cases (is_refused s (strtoul s) || not (starts b',' (strtoul s).rest))) [
          | inl g ↦ cc (rw g at e1)
          | inr g ↦
              let e2 = rw g at e1 in
              let t = tail (strtoul s).rest in
              elim (Bool-cases (is_refused t (strtoul t) || not (at_nul (strtoul t).rest))) [
                | inl h ↦ cc (rw h at e2)
                | inr h ↦
                    let (g1, g2) = or_false _ _ g in
                    let (h1, h2) = or_false _ _ h in
                    let first =
                      subst (Reads s (strtoul s).value) (starts-cons b',' _ (of_not _ g2))
                        (taken-Reads s g1) in
                    let found = two_sizes first (taken-Reads t h1) (at_nul-IsEnd _ (of_not _ h2)) in
                    let there =
                      subst (λ x. IsSizes (x ∷ s) (strtoul s).value (strtoul t).value)
                        (sym (==→eq f)) found in
                    subst (λ x. IsSizes (b ∷ s) x.0 x.1) (some-eq (rw h at e2)) there
              ]
        ]
  ]

  -- what the arguments ask for, as the usage says
  pub data Asks : List Text → Action → Type 0 where
    nothing : Asks [] interactive
    command :
        {a : Text} {rest : List Text}
        → ((s : Text) → ¬ (a ≡ test_option ++ s))
        → ¬ ((a ≡ help_option) × (rest ≡ []))
        → Asks (a ∷ rest) interactive
    help : Asks (help_option ∷ []) (usage_exit 0)
    well :
        {s : Text} {n m : ℕ} (rest : List Text)
        → IsSizes s n m
        → Asks ((test_option ++ s) ∷ rest) (statistics n m rest)
    badly :
        {s : Text} (rest : List Text)
        → ((n m : ℕ) → ¬ IsSizes s n m)
        → Asks ((test_option ++ s) ∷ rest) (usage_exit 1)

  -- With `-test`, alone or with two numbers that `strtoul` takes whole, the program makes as many trees of as many
  -- nodes; with anything else after `-test` it exits with 1, with `-h` alone it exits with 0, and it is interactive
  -- otherwise.
  pub parse_args-Asks : (args : List Text) → Asks args (parse_args strtoul args)
  unfolding parse_args
  parse_args-Asks [] = nothing
  parse_args-Asks (a ∷ rest) = elim (Bool-cases ((length rest == 0) && same a help_option)) [
    | inl e ↦
        let (p, q) = and_true (length rest == 0) (same a help_option) e in
        rw e (
          subst (λ x. Asks x (usage_exit 0))
            (sym (
              ap (λ x. x ∷ rest) (same_eq a help_option q)
              ∙ ap (λ x. help_option ∷ x) (length-nil rest (==→eq p))))
            help)
    | inr e ↦ elim (Option-cases (strip_prefix test_option a)) [
      | inl f ↦
          rw (e, f)
            (command
              (λ s g.
                let h =
                  sym (ap (strip_prefix test_option) g ∙ strip_prefix-append test_option s) ∙ f in
                cc)
              (λ (g, h). let k = help_alone a rest g h in cc))
      | inr (s, f) ↦ elim (Option-cases (sizes strtoul s)) [
        | inl g ↦
            rw (e, f, g)
              (subst (λ x. Asks (x ∷ rest) (usage_exit 1))
                (sym (strip_prefix-some test_option a s f))
                (badly rest (λ n m h. let k = sizes-some s n m h in cc)))
        | inr ((n, m), g) ↦
            rw (e, f, g)
              (subst (λ x. Asks (x ∷ rest) (statistics n m rest))
                (sym (strip_prefix-some test_option a s f)) (well rest (some-IsSizes s n m g)))
      ]
    ]
  ]
