-- ===== src/Arguments.antt =====
-- The command-line arguments of src/convcore.cpp: the search of an option, and its removal from
-- argv. A string is the list of its characters, and argv the list of its cells, `none` a null
-- pointer. What sscanf reads of a string is an argument.
mod View
mod Options
mod Search
mod Exact
mod Tests
use reconverse.Prelude.{
  ℕ, zero, suc, ◌+◌, Bool, true, false, ◌&&◌, ◌||◌, Option, none, some, List, [], ◌∷◌, leb, ◌==◌,
  if◌then◌else◌, get_or,
}
use reconverse.Prelude.Int.{ℤ}

abbrev pub Str : Type 0
Str = List ℕ

abbrev pub Cells : Type 0
Cells = List (Option Str)

-- CmiGetArgc
pub get_argc : Cells → ℕ
get_argc [] = 0
get_argc (none ∷ cells) = 0
get_argc (some a ∷ cells) = suc (get_argc cells)

-- CmiDeleteArgs, from a cell on
unfoldable pub delete_args : ℕ → Cells → Cells
delete_args k [] = []
delete_args k (c ∷ cells) =
    let x = get_or (c ∷ cells) k none in
    let further = delete_args k cells in elim x [ none ↦ none ∷ cells | some a ↦ some a ∷ further ]

-- `strcmp(a, b) == 0`
unfoldable pub eq_str : Str → Str → Bool
eq_str [] [] = true
eq_str [] (y ∷ ys) = false
eq_str (x ∷ xs) [] = false
eq_str (x ∷ xs) (y ∷ ys) = x == y && eq_str xs ys

-- `strncmp(a, arg, strlen(arg)) == 0`, with what comes behind `arg` in `a`
unfoldable pub strip : Str → Str → Option Str
strip [] a = some a
strip (x ∷ arg) [] = none
strip (x ∷ arg) (y ∷ a) = let t = strip arg a in if x == y then t else none

-- How an argument gives an option: not at all, in the next argument, or in itself.
pub data Match : Type 0 where
  no_match : Match
  separate : Match
  attached : Str → Match

-- `'-'`, `'+'` and `'0'` to `'9'`
abbrev pub starts_number : ℕ → Bool
starts_number c = c == 45 || c == 43 || (leb 48 c && leb c 57)

-- The switch of CmiGetArgIntDesc over what comes behind the option's name
unfoldable pub match_rest : Str → Match
match_rest [] = separate
match_rest (c ∷ t) =
    if c == 61 then attached t else (if starts_number c then attached (c ∷ t) else no_match)

unfoldable pub match_of : Str → Str → Match
unfolding strip match_rest
match_of arg a = elim (strip arg a) [ none ↦ no_match | some t ↦ match_rest t ]

-- What a search leaves: CmiAbort, no option, or its value and the other arguments.
pub data Found {ℓ} (A : Type ℓ) : Type ℓ where
  aborted : Found A
  not_given : Found A
  given : A → Cells → Found A

module _ {ℓ} {A : Type ℓ} where
  abbrev pub keep : Option Str → Found A → Found A
  keep a aborted = aborted
  keep a not_given = not_given
  keep a (given v cells) = given v (a ∷ cells)

  -- The end of CmiGetArgIntDesc: `opt` is read, and `n_del` arguments go.
  unfoldable pub read_option : (Str → Option A) → Option Str → ℕ → Cells → Found A
  unfolding delete_args
  read_option scan none n_del cells = aborted
  read_option scan (some opt) n_del cells = elim (scan opt) [
    | none ↦ aborted
    | some v ↦ given v (delete_args n_del cells)
  ]

  -- CmiGetArgIntDesc, with what sscanf makes of a string by "%i"
  unfoldable pub get_arg_int : (Str → Option A) → Str → Cells → Found A
  unfolding match_of read_option
  get_arg_int scan arg [] = not_given
  get_arg_int scan arg (none ∷ cells) = not_given
  get_arg_int scan arg (some a ∷ cells) =
      let further = get_arg_int scan arg cells in
      elim (match_of arg a) [
        | no_match ↦ keep (some a) further
        | separate ↦ read_option scan (get_or cells 0 none) 2 (some a ∷ cells)
        | attached opt ↦ read_option scan (some opt) 1 (some a ∷ cells)
      ]

  -- CmiGetArgLongDesc repeats that text, with what sscanf makes of a string by "%ld".
  abbrev pub get_arg_long : (Str → Option A) → Str → Cells → Found A
  get_arg_long scan arg cells = get_arg_int scan arg cells

-- CmiGetArgStringDesc
unfoldable pub get_arg_string : Str → Cells → Found Str
unfolding delete_args eq_str
get_arg_string arg [] = not_given
get_arg_string arg (none ∷ cells) = not_given
get_arg_string arg (some a ∷ cells) =
    let further = get_arg_string arg cells in
    if eq_str a arg
    then elim (get_or cells 0 none) [
      | none ↦ aborted
      | some opt ↦ given opt (delete_args 2 (some a ∷ cells))
    ]
    else keep (some a) further

-- CmiGetArgFlagDesc
unfoldable pub get_arg_flag : Str → Cells → Bool × Cells
unfolding delete_args eq_str
get_arg_flag arg [] = (false, [])
get_arg_flag arg (none ∷ cells) = (false, none ∷ cells)
get_arg_flag arg (some a ∷ cells) =
    let (here, further) = get_arg_flag arg cells in
    if eq_str a arg then (true, delete_args 1 (some a ∷ cells)) else (here, some a ∷ further)

-- CmiGetArgDoubleDesc, with what sscanf makes of a string by "%lg": `given none` is where it
-- returns 0 although the option was there, and is gone.
pub get_arg_double {ℓ} : {A : Type ℓ} → (Str → Option A) → Str → Cells → Found (Option A)
unfolding get_arg_string
get_arg_double scan arg cells = elim (get_arg_string arg cells) [
  | aborted ↦ aborted
  | not_given ↦ not_given
  | given opt rest ↦ given (scan opt) rest
]
