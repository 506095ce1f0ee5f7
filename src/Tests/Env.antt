-- ===== src/Tests/Env.antt =====
-- References and `.env` files, and the escapes of the highlighter.
use p2ser.Base.{◌≡◌, refl, arith, List, [], ◌∷◌}
use p2ser.Dict.Distinct.{put_all}
use p2ser.Dict.{Dict, put}
use p2ser.Text.{
  Text, codes, is_space, is_word, trim, trim_end, trim_start, trim_cons, split_parts, cut_at,
  ends_with, drop_last, equal,
}
use p2ser.Converter.EnvText.Lines.{IsKey, print_env, parse_env-print_env}
use p2ser.Converter.EnvText.{unquote, inner, read_line, read_trimmed, assign, read_lines, parse_env}
use p2ser.Converter.Interpolate.Template.{
  Piece, literal, plain, braces, colon_dash, print, meaning, interpolate-print,
}
use p2ser.Converter.Interpolate.{interpolate, is_name_start}
use p2ser.Tests.Data.{inherited_text, env}

abbrev pieces : List Piece
pieces =
    literal b'$'
    ∷ literal b'5'
    ∷ braces (codes "TAG") (colon_dash (codes "x"))
    ∷ literal b':'
    ∷ plain (codes "PORT")
    ∷ []

interpolate-print_example :
    interpolate inherited_text env (print pieces) ≡ meaning inherited_text env pieces
unfolding is_name_start is_word
interpolate-print_example = interpolate-print inherited_text env pieces (ground arith)

abbrev entries : Dict Text
entries = (codes "A", codes "x=1 #y") ∷ (codes "B_2", codes "\"q\"") ∷ []

abbrev file : Text
file = codes "# note\nA = 1\r\n =x\nB='two words' \n"

parse_env-file : parse_env file ≡ (codes "A", codes "1") ∷ (codes "B", codes "two words") ∷ []
unfolding parse_env read_lines read_line read_trimmed assign unquote inner trim trim_start trim_end
    trim_cons is_space split_parts cut_at ends_with drop_last put equal
parse_env-file = refl

IsKey-A : IsKey (codes "A")
unfolding is_space trim_end trim_cons
IsKey-A = record {
  starts = (refl, omega arith);
  trimmed = refl;
  no_equals = omega arith;
  no_break = omega arith;
}

IsKey-B : IsKey (codes "B_2")
unfolding is_space trim_end trim_cons
IsKey-B = record {
  starts = (refl, omega arith);
  trimmed = refl;
  no_equals = omega arith;
  no_break = omega arith;
}

parse_env-print_env_example : parse_env (print_env entries) ≡ put_all [] entries
parse_env-print_env_example =
    parse_env-print_env entries ((IsKey-A, omega arith), ((IsKey-B, omega arith), tt))
