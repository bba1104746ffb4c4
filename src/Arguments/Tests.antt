-- ===== src/Arguments/Tests.antt =====
-- Command lines.
use reconverse.Prelude.{
  ℕ, ◌+◌, ◌*◌, ◌-◌, ◌≡◌, refl, Option, none, some, [], ◌∷◌, ◌&&◌, leb, if◌then◌else◌,
}
use reconverse.Arguments.{Str, Cells, given, aborted, get_arg_int, get_arg_string, get_arg_double}
use reconverse.Arguments.Exact.{SaysString, get_arg_string-Says}
use reconverse.Arguments.Search.{Says, get_arg_int-Says}

-- Digits as a number.
digits : ℕ → Str → Option ℕ
digits n [] = some n
digits n (c ∷ t) =
    let further = digits (10 * n + (c - 48)) t in if leb 48 c && leb c 57 then further else none

abbrev number : Str → Option ℕ
unfolding digits
number [] = none
number (c ∷ t) = digits 0 (c ∷ t)

-- `-p`
abbrev p_option : Str
p_option = 45 ∷ 112 ∷ []

-- `run -px -p27 -p 4`
abbrev command : Cells
command =
    some (114 ∷ 117 ∷ 110 ∷ [])
    ∷ some (45 ∷ 112 ∷ 120 ∷ [])
    ∷ some (45 ∷ 112 ∷ 50 ∷ 55 ∷ [])
    ∷ some p_option
    ∷ some (52 ∷ [])
    ∷ none
    ∷ []

get_arg_int-Says_example : Says number p_option command (get_arg_int number p_option command)
get_arg_int-Says_example = get_arg_int-Says number p_option command

joined_value :
    get_arg_int number p_option command
    ≡ given 27 (
        some (114 ∷ 117 ∷ 110 ∷ [])
        ∷ some (45 ∷ 112 ∷ 120 ∷ [])
        ∷ some p_option
        ∷ some (52 ∷ [])
        ∷ none
        ∷ none
        ∷ [])
unfolding get_arg_int digits
joined_value = refl

no_value : get_arg_int number p_option (some p_option ∷ none ∷ []) ≡ aborted
unfolding get_arg_int digits
no_value = refl

get_arg_string-Says_example : SaysString p_option command (get_arg_string p_option command)
get_arg_string-Says_example = get_arg_string-Says p_option command

-- `-p 4` is the first whole `-p`.
string_value :
    get_arg_string p_option command
    ≡ given (52 ∷ []) (
        some (114 ∷ 117 ∷ 110 ∷ [])
        ∷ some (45 ∷ 112 ∷ 120 ∷ [])
        ∷ some (45 ∷ 112 ∷ 50 ∷ 55 ∷ [])
        ∷ none
        ∷ some (52 ∷ [])
        ∷ none
        ∷ [])
unfolding get_arg_string
string_value = refl

-- A value that is no number is removed all the same.
unread :
    get_arg_double number p_option (some p_option ∷ some (120 ∷ []) ∷ none ∷ [])
    ≡ given none (none ∷ some (120 ∷ []) ∷ none ∷ [])
unfolding get_arg_double number
unread = refl
