-- ===== src/Arguments/Search.antt =====
-- The whole search of CmiGetArgIntDesc in src/convcore.cpp: what it gives, leaves and refuses.
use reconverse.Prelude.{
  ◌≤◌, ◌≡◌, refl, ap, ◌∙◌, Option, none, some, List, [], ◌∷◌, ◌++◌, length, get_or, drop,
  length-append, arith, ◌⊎◌, inl, inr,
}
use reconverse.Arguments.{
  Str, Cells, delete_args, Match, no_match, separate, attached, match_of, Found, aborted, not_given,
  given, keep, read_option, get_arg_int,
}
use reconverse.Arguments.View.{args, delete_args-args}
use reconverse.Arguments.Options.{Form, apart, IsOther, AllOther, Meaning, match_of-Meaning}

module _ {A : Type 0} (scan : Str → Option A) (arg : Str) where
  -- The first option of the name has this value, and it alone is gone.
  pub record Given (cells : Cells) (value : A) (rest : Cells) : Type 0 where
    pub before : List Str
    pub option : List Str
    pub after : List Str
    pub opt : Str
    pub others : AllOther arg before
    pub form : Form arg option opt
    pub read : scan opt ≡ some value
    pub was : args cells ≡ before ++ option ++ after
    pub left : args rest ≡ before ++ after

  -- The first option of the name has no value, at the end of the arguments, or none that can be read.
  pub record Refused (cells : Cells) : Type 0 where
    pub before : List Str
    pub tail : List Str
    pub others : AllOther arg before
    pub was : args cells ≡ before ++ tail
    pub because :
        (tail ≡ arg ∷ [])
        ⊎ ((option : List Str) × (after : List Str) × (opt : Str) × (tail ≡ option ++ after)
            × Form arg option opt
            × (scan opt ≡ none))

  abbrev pub Says : Cells → Found A → Type 0
  Says cells aborted = Refused cells
  Says cells not_given = AllOther arg (args cells)
  Says cells (given value rest) = Given cells value rest

  keep-Says :
      (a : Str) (cells : Cells) (f : Found A)
      → IsOther arg a
      → Says cells f
      → Says (some a ∷ cells) (keep (some a) f)
  keep-Says a cells aborted o h = record {
    before = a ∷ h.before;
    tail = h.tail;
    others = (o, h.others);
    was = ap (λ rest. a ∷ rest) h.was;
    because = h.because;
  }
  keep-Says a cells not_given o h = (o, h)
  keep-Says a cells (given v rest) o h = record {
    before = a ∷ h.before;
    option = h.option;
    after = h.after;
    opt = h.opt;
    others = (o, h.others);
    form = h.form;
    read = h.read;
    was = ap (λ rest. a ∷ rest) h.was;
    left = ap (λ rest. a ∷ rest) h.left;
  }

  drop-append : (xs ys : List Str) → drop (length xs) (xs ++ ys) ≡ ys
  drop-append [] ys = refl
  drop-append (x ∷ xs) ys = drop-append xs ys

  read_option-Says :
      (cells : Cells) (option after : List Str) (opt : Str)
      → args cells ≡ option ++ after
      → Form arg option opt
      → Says cells (read_option scan (some opt) (length option) cells)
  unfolding read_option
  read_option-Says cells option after opt was form = go (scan opt) refl
    where
      enough : length option ≤ length (args cells)
      enough = omega (arith, ap (length {A = Str}) was, length-append option after)

      go :
          (r : Option A)
          → scan opt ≡ r
          → Says cells
              (elim r [ none ↦ aborted | some v ↦ given v (delete_args (length option) cells) ])
      go none e = record {
        before = [];
        tail = args cells;
        others = tt;
        was = refl;
        because = inr (option, after, opt, was, form, e);
      }
      go (some v) e = record {
        before = [];
        option = option;
        after = after;
        opt = opt;
        others = tt;
        form = form;
        read = e;
        was = was;
        left =
            delete_args-args (length option) cells enough
            ∙ ap (drop (length option)) was
            ∙ drop-append option after;
      }

  ends : (a : Str) (cells : Cells) → a ≡ arg → args cells ≡ [] → Refused (some a ∷ cells)
  ends a cells e f = record {
    before = [];
    tail = a ∷ args cells;
    others = tt;
    was = refl;
    because = inl (ap (λ b. b ∷ args cells) e ∙ ap (λ bs. arg ∷ bs) f);
  }

  next-Says :
      (a : Str) (cells : Cells)
      → a ≡ arg
      → Says (some a ∷ cells) (read_option scan (get_or cells 0 none) 2 (some a ∷ cells))
  unfolding read_option
  next-Says a [] e = ends a [] e refl
  next-Says a (none ∷ cells) e = ends a (none ∷ cells) e refl
  next-Says a (some opt ∷ cells) e =
      read_option-Says (some a ∷ some opt ∷ cells) (arg ∷ opt ∷ []) (args cells) opt
        (ap (λ b. b ∷ opt ∷ args cells) e) (apart opt)

  -- For every reading of numbers: if the search gives a value, it is that of the first option of
  -- the name, in one of its three forms, and this option alone is gone, the other arguments being
  -- as before and in their order; if it gives none, no argument begins such an option; it aborts
  -- only where the first such option is the last argument and has no value, or has one that cannot
  -- be read.
  pub get_arg_int-Says : (cells : Cells) → Says cells (get_arg_int scan arg cells)
  unfolding get_arg_int
  get_arg_int-Says [] = tt
  get_arg_int-Says (none ∷ cells) = tt
  get_arg_int-Says (some a ∷ cells) =
      go (match_of arg a) (match_of-Meaning arg a) (get_arg_int-Says cells)
    where
      go :
          (r : Match)
          → Meaning arg a r
          → Says cells (get_arg_int scan arg cells)
          → Says (some a ∷ cells) (elim r [
            | no_match ↦ keep (some a) (get_arg_int scan arg cells)
            | separate ↦ read_option scan (get_or cells 0 none) 2 (some a ∷ cells)
            | attached opt ↦ read_option scan (some opt) 1 (some a ∷ cells)
          ])
      go no_match m further = keep-Says a cells (get_arg_int scan arg cells) m further
      go separate m further = next-Says a cells m
      go (attached opt) m further =
          read_option-Says (some a ∷ cells) (a ∷ []) (args cells) opt refl m
