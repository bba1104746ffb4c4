-- ===== src/Arguments/Exact.antt =====
-- The searches of CmiGetArgStringDesc and CmiGetArgFlagDesc in src/convcore.cpp, for an argument
-- that is the option's name.
use reconverse.Prelude.{
  ◌≡◌, ◌≢◌, refl, sym, ap, ◌∙◌, Bool, true, false, none, some, List, [], ◌∷◌, ◌++◌, get_or,
  if_cases, arith,
}
use reconverse.Arguments.{
  Str, Cells, delete_args, eq_str, Found, aborted, not_given, given, keep, get_arg_string,
  get_arg_flag,
}
use reconverse.Arguments.View.{args, delete_args-args}

eq_str→eq : (a b : Str) → eq_str a b ≡ true → a ≡ b
unfolding eq_str
eq_str→eq [] [] e = refl
eq_str→eq [] (y ∷ b) e = absurd (cc)
eq_str→eq (x ∷ a) [] e = absurd (cc)
eq_str→eq (x ∷ a) (y ∷ b) e = same (ground (arith, e)) (eq_str→eq a b (ground (arith, e)))
  where
    same : x ≡ y → a ≡ b → x ∷ a ≡ y ∷ b
    same p q = cc

eq_str_self : (a : Str) → eq_str a a ≡ true
unfolding eq_str
eq_str_self [] = refl
eq_str_self (x ∷ a) = ground (arith, eq_str_self a)

eq_str→ne : (a b : Str) → eq_str a b ≡ false → a ≢ b
eq_str→ne a b e p = clash (sym (eq_str_self b) ∙ ap (λ c. eq_str c b) (sym p) ∙ e)
  where
    clash : true ≡ false → ⊥
    clash q = cc

module _ (arg : Str) where
  abbrev pub Absent : List Str → Type 0
  Absent [] = Unit {0}
  Absent (a ∷ rest) = (a ≢ arg) × Absent rest

  -- The first argument that is the name is gone, with its value if it has one, and nothing else.
  pub record Removed (value : List Str) (cells rest : Cells) : Type 0 where
    pub before : List Str
    pub after : List Str
    pub others : Absent before
    pub was : args cells ≡ before ++ arg ∷ value ++ after
    pub left : args rest ≡ before ++ after

  -- The first argument that is the name is the last of all.
  pub record Last (cells : Cells) : Type 0 where
    pub before : List Str
    pub others : Absent before
    pub was : args cells ≡ before ++ arg ∷ []

  abbrev pub SaysString : Cells → Found Str → Type 0
  SaysString cells aborted = Last cells
  SaysString cells not_given = Absent (args cells)
  SaysString cells (given value rest) = Removed (value ∷ []) cells rest

  abbrev pub SaysFlag : Cells → Bool × Cells → Type 0
  SaysFlag cells (false, rest) = Absent (args cells) × (rest ≡ cells)
  SaysFlag cells (true, rest) = Removed [] cells rest

  Removed-behind :
      {value : List Str} {cells rest : Cells} (a : Str)
      → a ≢ arg
      → Removed value cells rest
      → Removed value (some a ∷ cells) (some a ∷ rest)
  Removed-behind a n h = record {
    before = a ∷ h.before;
    after = h.after;
    others = (n, h.others);
    was = ap (λ bs. a ∷ bs) h.was;
    left = ap (λ bs. a ∷ bs) h.left;
  }

  keep-SaysString :
      (a : Str) (cells : Cells) (f : Found Str)
      → a ≢ arg
      → SaysString cells f
      → SaysString (some a ∷ cells) (keep (some a) f)
  keep-SaysString a cells aborted n h = record {
    before = a ∷ h.before;
    others = (n, h.others);
    was = ap (λ bs. a ∷ bs) h.was;
  }
  keep-SaysString a cells not_given n h = (n, h)
  keep-SaysString a cells (given v rest) n h = Removed-behind a n h

  here-SaysString :
      (a : Str) (cells : Cells)
      → a ≡ arg
      → SaysString (some a ∷ cells) (elim (get_or cells 0 none) [
        | none ↦ aborted
        | some opt ↦ given opt (delete_args 2 (some a ∷ cells))
      ])
  here-SaysString a [] e = record { before = []; others = tt; was = ap (λ b. b ∷ []) e }
  here-SaysString a (none ∷ cells) e = record { before = []; others = tt; was = ap (λ b. b ∷ []) e }
  here-SaysString a (some opt ∷ cells) e = record {
    before = [];
    after = args cells;
    others = tt;
    was = ap (λ b. b ∷ opt ∷ args cells) e;
    left = delete_args-args 2 (some a ∷ some opt ∷ cells) (omega arith);
  }

  -- CmiGetArgStringDesc gives the argument behind the first one that is the option's name, and
  -- takes these two away and nothing else; it aborts only if that one is the last argument, and
  -- finds nothing only if none is the name.
  pub get_arg_string-Says : (cells : Cells) → SaysString cells (get_arg_string arg cells)
  unfolding get_arg_string
  get_arg_string-Says [] = tt
  get_arg_string-Says (none ∷ cells) = tt
  get_arg_string-Says (some a ∷ cells) =
      let further = get_arg_string-Says cells in
      if_cases (SaysString (some a ∷ cells)) (eq_str a arg)
        (elim (get_or cells 0 none) [
          | none ↦ aborted
          | some opt ↦ given opt (delete_args 2 (some a ∷ cells))
        ])
        (keep (some a) (get_arg_string arg cells))
        (λ p. here-SaysString a cells (eq_str→eq a arg p))
        (λ p. keep-SaysString a cells (get_arg_string arg cells) (eq_str→ne a arg p) further)

  keep-SaysFlag :
      (a : Str) (cells : Cells) (f : Bool × Cells)
      → a ≢ arg
      → SaysFlag cells f
      → SaysFlag (some a ∷ cells) (f.0, some a ∷ f.1)
  keep-SaysFlag a cells (false, rest) n h = ((n, h.0), ap (λ c. some a ∷ c) h.1)
  keep-SaysFlag a cells (true, rest) n h = Removed-behind a n h

  -- CmiGetArgFlagDesc takes away the first argument that is the flag and nothing else, or finds
  -- that none is, and leaves argv as it was.
  pub get_arg_flag-Says : (cells : Cells) → SaysFlag cells (get_arg_flag arg cells)
  unfolding get_arg_flag
  get_arg_flag-Says [] = (tt, refl)
  get_arg_flag-Says (none ∷ cells) = (tt, refl)
  get_arg_flag-Says (some a ∷ cells) =
      let further = get_arg_flag-Says cells in
      if_cases (SaysFlag (some a ∷ cells)) (eq_str a arg) (true, delete_args 1 (some a ∷ cells))
        ((get_arg_flag arg cells).0, some a ∷ (get_arg_flag arg cells).1)
        (λ p. record {
          before = [];
          after = args cells;
          others = tt;
          was = ap (λ b. b ∷ args cells) (eq_str→eq a arg p);
          left = delete_args-args 1 (some a ∷ cells) (omega arith);
        })
        (λ p. keep-SaysFlag a cells (get_arg_flag arg cells) (eq_str→ne a arg p) further)
