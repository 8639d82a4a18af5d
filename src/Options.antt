-- ===== src/Options.antt =====
-- The command line, merry/merry.c and merry/tools/merry.h. A string is the list of its characters
-- without the NUL, so that a character behind its end reads as 0 there.
pub mod Parse
mod Tests
use merry_v.Common.{
  ℕ, Bool, true, false, ◌&&◌, ◌||◌, Option, none, some, List, [], ◌∷◌, ◌==◌, ltb, if◌then◌else◌,
  get_or, drop, length,
}

abbrev pub Text : Type 0
Text = List ℕ

-- `strcmp(s, t) == 0`
abbrev pub same_text : Text → Text → Bool
same_text [] [] = true
same_text [] (d ∷ t) = false
same_text (c ∷ s) [] = false
same_text (c ∷ s) (d ∷ t) = let rest = same_text s t in c == d && rest

abbrev pub text_h : Text
text_h = b'h' ∷ []

abbrev pub text_help : Text
text_help = b'h' ∷ b'e' ∷ b'l' ∷ b'p' ∷ []

abbrev pub text_v : Text
text_v = b'v' ∷ []

abbrev pub text_version : Text
text_version = b'v' ∷ b'e' ∷ b'r' ∷ b's' ∷ b'i' ∷ b'o' ∷ b'n' ∷ []

-- What `_options_` points to: nothing, what malloc left in the structure, or an array of arguments.
pub data OptionArray : Type 0 where
  null junk : OptionArray
  array : List Text → OptionArray

-- `MerryCLP`: the flags `provided`, with the value of _OPT_FILE.
pub record Clp : Type 0 where
  pub help : Bool
  pub file : Bool
  pub ver : Bool
  pub clo : Bool
  pub file_value : Text
  pub options : OptionArray
  pub option_count : ℕ

-- The messages with which the parser gives up.
pub data Complaint : Type 0 where
  no_arguments no_memory no_path no_options not_fully_parsed : Complaint
  unknown_option : Text → Complaint

pub data Parsed : Type 0 where
  refused : Complaint → Parsed
  parsed : Clp → Parsed

-- What the nested switches make of one argument.
pub data Argument : Type 0 where
  asks_help asks_version nothing names_file ends_options unknown : Argument

-- `argv[i][1] == '-'`
abbrev pub long_argument : Text → Argument
long_argument arg =
    let name = drop 2 arg in
    if get_or arg 2 0 == b'h'
    then (if same_text name text_help || same_text name text_h then asks_help else nothing)
    else (if get_or arg 2 0 == b'v'
        then (if same_text name text_version || same_text name text_v
            then asks_version
            else nothing)
        else ends_options)

unfoldable pub argument : Text → Argument
argument arg =
    let name = drop 1 arg in
    let c = get_or arg 1 0 in
    if get_or arg 0 0 == b'-'
    then (if c == b'-'
        then long_argument arg
        else (if c == b'h'
            then (if same_text name text_help || same_text name text_h then asks_help else nothing)
            else (if c == b'v'
                then (if same_text name text_v || same_text name text_version
                    then asks_version
                    else nothing)
                else (if c == b'f' then names_file else unknown))))
    else unknown

-- How the loop over the arguments ends: by a complaint, at the last argument, or behind "--" with
-- the arguments that follow it.
pub data Walk : Type 0 where
  stopped : Complaint → Walk
  all_read : Clp → Walk
  rest_of : List Text → Clp → Walk

abbrev pub with_file : Text → Clp → Clp
with_file path clp = record clp { file = true; file_value = path }

unfoldable pub walk : List Text → Clp → Walk
unfolding argument
walk [] clp = all_read clp
walk (arg ∷ []) clp = elim (argument arg) [
  | asks_help ↦ all_read (record clp { help = true })
  | asks_version ↦ all_read (record clp { ver = true })
  | nothing ↦ all_read clp
  | names_file ↦ stopped no_path
  | ends_options ↦ rest_of [] clp
  | unknown ↦ stopped (unknown_option arg)
]
walk (arg ∷ next ∷ args) clp = elim (argument arg) [
  | asks_help ↦ walk (next ∷ args) (record clp { help = true })
  | asks_version ↦ walk (next ∷ args) (record clp { ver = true })
  | nothing ↦ walk (next ∷ args) clp
  | names_file ↦ walk args (with_file next clp)
  | ends_options ↦ rest_of (next ∷ args) clp
  | unknown ↦ stopped (unknown_option arg)
]

-- What comes of the arguments behind "--".
abbrev pub keep_options : Bool → List Text → Clp → Parsed
keep_options malloc_ok [] clp = refused no_options
keep_options malloc_ok (arg ∷ args) clp =
    if malloc_ok
    then parsed (record clp {
      options = array (arg ∷ args);
      option_count = length (arg ∷ args);
      clo = true;
    })
    else refused not_fully_parsed

-- `merry_parse_options`: the structure as malloc left it, if it gives one, and whether malloc gives
-- the array of arguments; `args` are those behind the program's name.
unfoldable pub parse_options : Option Clp → Bool → List Text → Parsed
unfolding walk
parse_options left malloc_ok [] = refused no_arguments
parse_options none malloc_ok (arg ∷ args) = refused no_memory
parse_options (some clp) malloc_ok (arg ∷ args) = elim (walk (arg ∷ args) clp) [
  | stopped complaint ↦ refused complaint
  | all_read clp' ↦ parsed clp'
  | rest_of rest clp' ↦ keep_options malloc_ok rest clp'
]

-- `merry_destroy_parser`: whether the pointers that it frees are malloc's.
unfoldable pub destroy_parser : Clp → Bool
destroy_parser clp = elim clp.options [ null ↦ true | junk ↦ false | array args ↦ true ]
