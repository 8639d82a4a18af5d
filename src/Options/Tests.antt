-- ===== src/Options/Tests.antt =====
-- A concrete command line, and the theorem of the parser at it.
use merry_v.Common.{◌≡◌, false, true, some, [], ◌∷◌}
use merry_v.Options.{Clp, junk, parsed, parse_options}
use merry_v.Options.Parse.{Wish, render, granted, parse_options-render}

abbrev left : Clp
left = record {
  help = true;
  file = false;
  ver = false;
  clo = false;
  file_value = [];
  options = junk;
  option_count = 7;
}

-- merry -h -f a -- x
abbrev wish : Wish
wish = record { help = true; ver = false; path = b'a' ∷ []; options = (b'x' ∷ []) ∷ [] }

parse_options-render_example :
    parse_options (some left) true (render wish) ≡ parsed (granted wish left)
parse_options-render_example = parse_options-render wish left
