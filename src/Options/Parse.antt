-- ===== src/Options/Parse.antt =====
-- `merry_parse_options` of merry/merry.c on the command lines that its help describes.
use merry_v.Common.{◌≡◌, refl, Bool, true, false, ◌||◌, some, List, [], ◌∷◌, if◌then◌else◌, length}
use merry_v.Options.{Text, Clp, array, parsed, argument, walk, parse_options, text_version}

-- What a user asks for.
pub record Wish : Type 0 where
  pub help : Bool
  pub ver : Bool
  pub path : Text
  pub options : List Text

abbrev pub flag_f : Text
flag_f = b'-' ∷ b'f' ∷ []

abbrev pub dashes : Text
dashes = b'-' ∷ b'-' ∷ []

-- The options of the program, behind "--".
abbrev pub tail : List Text → List Text
tail [] = []
tail (arg ∷ args) = dashes ∷ arg ∷ args

abbrev pub asked : Bool → Text → List Text → List Text
asked b flag args = if b then flag ∷ args else args

-- The command line that says so, without the program's name.
abbrev pub render : Wish → List Text
render w =
    asked w.help (b'-' ∷ b'h' ∷ [])
      (asked w.ver (b'-' ∷ b'-' ∷ text_version) (flag_f ∷ w.path ∷ tail w.options))

-- What the parser makes of the structure that malloc gave it.
abbrev pub granted : Wish → Clp → Clp
granted w left =
    let clp = record left {
      help = w.help || left.help;
      ver = w.ver || left.ver;
      file = true;
      file_value = w.path;
    } in
    elim w.options [
      | [] ↦ clp
      | arg ∷ args ↦ record clp {
        options = array (arg ∷ args);
        option_count = length (arg ∷ args);
        clo = true;
      }
    ]

-- A command line with a path, any of "-h" and "--version" before it and any options of the
-- program behind "--" is parsed, if malloc succeeds, to the path and those options with their
-- count; but a flag that it does not name, and without "--" the options and their count too,
-- are what malloc left.
pub parse_options-render :
    (w : Wish) (left : Clp) → parse_options (some left) true (render w) ≡ parsed (granted w left)
unfolding parse_options walk argument
parse_options-render w left = go w.help w.ver w.options
  where
    go :
        (help ver : Bool) (options : List Text)
        → let w' : Wish = record { help = help; ver = ver; path = w.path; options = options } in
          parse_options (some left) true (render w') ≡ parsed (granted w' left)
    go false false [] = refl
    go false false (arg ∷ args) = refl
    go false true [] = refl
    go false true (arg ∷ args) = refl
    go true false [] = refl
    go true false (arg ∷ args) = refl
    go true true [] = refl
    go true true (arg ∷ args) = refl
