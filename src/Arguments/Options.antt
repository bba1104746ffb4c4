-- ===== src/Arguments/Options.antt =====
-- The options that CmiGetArgIntDesc of src/convcore.cpp finds, and what it leaves of the other
-- arguments.
use reconverse.Prelude.{
  ℕ, ◌≡◌, ◌≢◌, refl, sym, ap, subst, ◌∙◌, Bool, true, false, Option, none, some, List, [], ◌∷◌,
  ◌++◌, ◌==◌, if◌then◌else◌, if_cases, arith,
}
use reconverse.Arguments.{
  Str, strip, Match, no_match, separate, attached, starts_number, match_rest, match_of,
}

-- The three ways to write an option with its value: `-p 27`, `-p=27` and `-p27`.
pub data Form (arg : Str) : List Str → Str → Type 0 where
  apart : (opt : Str) → Form arg (arg ∷ opt ∷ []) opt
  equals : (opt : Str) → Form arg ((arg ++ 61 ∷ opt) ∷ []) opt
  joined : (c : ℕ) (t : Str) → starts_number c ≡ true → Form arg ((arg ++ c ∷ t) ∷ []) (c ∷ t)

-- An argument that begins no option of that name.
abbrev pub IsOther : Str → Str → Type 0
IsOther arg a =
    (a ≢ arg)
    × ((opt : Str) → a ≢ arg ++ 61 ∷ opt)
    × ((c : ℕ) (t : Str) → starts_number c ≡ true → a ≢ arg ++ c ∷ t)

abbrev pub AllOther : Str → List Str → Type 0
AllOther arg [] = Unit {0}
AllOther arg (a ∷ rest) = IsOther arg a × AllOther arg rest

strip-some : (arg a t : Str) → strip arg a ≡ some t → a ≡ arg ++ t
unfolding strip
strip-some [] a t e = cc
strip-some (x ∷ arg) [] t e = absurd (cc)
strip-some (x ∷ arg) (y ∷ a) t e = go (x == y) refl e (strip-some arg a t)
  where
    go :
        (b : Bool)
        → (x == y) ≡ b
        → (if b then strip arg a else none) ≡ some t
        → (strip arg a ≡ some t → a ≡ arg ++ t)
        → y ∷ a ≡ x ∷ (arg ++ t)
    go true p q further = same (ground (arith, p)) (further q)
      where
        same : x ≡ y → a ≡ arg ++ t → y ∷ a ≡ x ∷ (arg ++ t)
        same p q = cc
    go false p q further = absurd (cc)

strip-append : (arg t : Str) → strip arg (arg ++ t) ≡ some t
unfolding strip
strip-append [] t = refl
strip-append (x ∷ arg) t = ground (arith, strip-append arg t)

append_nil : (xs : Str) → xs ++ [] ≡ xs
append_nil [] = refl
append_nil (x ∷ xs) = ap (λ t. x ∷ t) (append_nil xs)

-- What the switch says of an argument.
abbrev pub Meaning : Str → Str → Match → Type 0
Meaning arg a no_match = IsOther arg a
Meaning arg a separate = a ≡ arg
Meaning arg a (attached opt) = Form arg (a ∷ []) opt

other : (arg a u : Str) → match_of arg a ≡ no_match → ¬ (match_rest u ≡ no_match) → a ≢ arg ++ u
unfolding match_of
other arg a u e h i = h (ground (arith, e, i, strip-append arg u))

joined_matches : (c : ℕ) (t : Str) → starts_number c ≡ true → ¬ (match_rest (c ∷ t) ≡ no_match)
unfolding match_rest
joined_matches c t n e = ground (arith, e, n)

rest_matches : ¬ (match_rest [] ≡ no_match)
unfolding match_rest
rest_matches e = absurd (cc)

equals_clash : (opt : Str) → ¬ (match_rest (61 ∷ opt) ≡ no_match)
unfolding match_rest
equals_clash opt e = absurd (cc)

IsOther-match_of : (arg a : Str) → match_of arg a ≡ no_match → IsOther arg a
IsOther-match_of arg a m = (
  λ e. other arg a [] m rest_matches (e ∙ sym (append_nil arg)),
  λ opt. other arg a (61 ∷ opt) m (equals_clash opt),
  λ c t n. other arg a (c ∷ t) m (joined_matches c t n),
)

match_rest-Meaning :
    (arg a t : Str)
    → a ≡ arg ++ t
    → (match_rest t ≡ no_match → IsOther arg a)
    → Meaning arg a (match_rest t)
unfolding match_rest
match_rest-Meaning arg a [] e = λ h. e ∙ append_nil arg
match_rest-Meaning arg a (c ∷ t) e =
    if_cases (λ (r : Match). (r ≡ no_match → IsOther arg a) → Meaning arg a r) (c == 61)
      (attached t) (if starts_number c then attached (c ∷ t) else no_match)
      (λ p h.
        subst (λ b. Form arg (b ∷ []) t) (sym (e ∙ ap (λ d. arg ++ d ∷ t) (ground (arith, p))))
          (equals t))
      (λ p.
        if_cases (λ (r : Match). (r ≡ no_match → IsOther arg a) → Meaning arg a r) (starts_number c)
          (attached (c ∷ t)) no_match
          (λ q h. subst (λ b. Form arg (b ∷ []) (c ∷ t)) (sym e) (joined c t q)) (λ q h. h refl))

pub match_of-Meaning : (arg a : Str) → Meaning arg a (match_of arg a)
unfolding match_of
match_of-Meaning arg a = go (strip arg a) refl
  where
    go :
        (o : Option Str)
        → strip arg a ≡ o
        → Meaning arg a (elim o [ none ↦ no_match | some t ↦ match_rest t ])
    go none e = IsOther-match_of arg a (ground (arith, e))
    go (some t) e =
        match_rest-Meaning arg a t (strip-some arg a t e)
          (λ h. IsOther-match_of arg a (ground (arith, e, h)))
