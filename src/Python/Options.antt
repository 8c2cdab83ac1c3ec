-- ===== src/Python/Options.antt =====
-- The options of one section of a `configparser.ConfigParser`, with its basic interpolation. Texts
-- are lists of the codes of their characters, as `codes` gives them.
pub mod Plain
use global_payments_api.Prelude.{
  ℕ, zero, suc, ◌+◌, String, Bool, true, false, ◌&&◌, ◌||◌, not, List, [], ◌∷◌, ◌++◌, Option, none,
  some, leb, eqb, if◌then◌else◌,
}
use global_payments_api.Python.Raised.{Result, ok, err, ◌>>=◌, Raised, value_error, other}

abbrev pub Text : Type 0
Text = List ℕ

-- The codes of "%", "(", ")" and "s".
abbrev pub percent : ℕ
percent = 37

abbrev pub open_paren : ℕ
open_paren = 40

abbrev close_paren : ℕ
close_paren = 41

abbrev letter_s : ℕ
letter_s = 115

abbrev pub same_text : Text → Text → Bool
same_text [] [] = true
same_text (x ∷ xs) (y ∷ ys) = let rest = same_text xs ys in eqb x y && rest
same_text _ _ = false

abbrev pub has_percent : Text → Bool
has_percent [] = false
has_percent (c ∷ cs) = let rest = has_percent cs in eqb c percent || rest

-- `name.lower()` of ASCII letters
abbrev lower : Text → Text
lower [] = []
lower (c ∷ cs) = (if leb 65 c && leb c 90 then c + 32 else c) ∷ lower cs

-- A value is characters and references `%(name)s`, up to the end or to an error of syntax.
pub data Piece : Type 0 where
  character : ℕ → Piece
  reference : Text → Piece
  bad_syntax : Piece

-- Where the reading stands: outside, behind a "%", in a name with what is read of it, and behind its
-- parenthesis.
pub data Mode : Type 0 where
  outside behind_percent : Mode
  in_name : Text → Mode
  behind_name : Text → Mode

abbrev is_empty : Text → Bool
is_empty [] = true
is_empty (c ∷ cs) = false

unfoldable pub pieces : Mode → Text → List Piece
pieces outside [] = []
pieces behind_percent [] = bad_syntax ∷ []
pieces (in_name n) [] = bad_syntax ∷ []
pieces (behind_name n) [] = bad_syntax ∷ []
pieces outside (c ∷ cs) = elim (eqb c percent) [
  | true ↦ pieces behind_percent cs
  | false ↦ character c ∷ pieces outside cs
]
pieces behind_percent (c ∷ cs) = elim (eqb c percent) [
  | true ↦ character percent ∷ pieces outside cs
  | false ↦ elim (eqb c open_paren) [ true ↦ pieces (in_name []) cs | false ↦ bad_syntax ∷ [] ]
]
pieces (in_name n) (c ∷ cs) = elim (eqb c close_paren) [
  | true ↦ elim (is_empty n) [ true ↦ bad_syntax ∷ [] | false ↦ pieces (behind_name n) cs ]
  | false ↦ pieces (in_name (n ++ (c ∷ []))) cs
]
pieces (behind_name n) (c ∷ cs) = elim (eqb c letter_s) [
  | true ↦ reference n ∷ pieces outside cs
  | false ↦ bad_syntax ∷ []
]

-- What is left behind the pairs of percent signs are dropped, as `before_set` does, has references only.
drop_pairs : Bool → Text → Text
drop_pairs false [] = []
drop_pairs true [] = percent ∷ []
drop_pairs false (c ∷ cs) = elim (eqb c percent) [
  | true ↦ drop_pairs true cs
  | false ↦ c ∷ drop_pairs false cs
]
drop_pairs true (c ∷ cs) = elim (eqb c percent) [
  | true ↦ drop_pairs false cs
  | false ↦ percent ∷ c ∷ drop_pairs false cs
]

is_settable : Mode → Text → Bool
is_settable outside [] = true
is_settable _ [] = false
is_settable outside (c ∷ cs) = elim (eqb c percent) [
  | true ↦ is_settable behind_percent cs
  | false ↦ is_settable outside cs
]
is_settable behind_percent (c ∷ cs) = elim (eqb c open_paren) [
  | true ↦ is_settable (in_name []) cs
  | false ↦ false
]
is_settable (in_name n) (c ∷ cs) = elim (eqb c close_paren) [
  | true ↦ elim (is_empty n) [ true ↦ false | false ↦ is_settable (behind_name n) cs ]
  | false ↦ is_settable (in_name (c ∷ n)) cs
]
is_settable (behind_name n) (c ∷ cs) = elim (eqb c letter_s) [
  | true ↦ is_settable outside cs
  | false ↦ false
]

-- The options of a section, their names in lower case.
abbrev pub Options : Type 0
Options = List (Text × Text)

abbrev pub raw_option : Text → Options → Option Text
raw_option n [] = none
raw_option n ((m, v) ∷ rest) =
    let later = raw_option n rest in if same_text m n then some v else later

abbrev pub store : Text → Text → Options → Options
store n v [] = (n, v) ∷ []
store n v ((m, w) ∷ rest) =
    let later = store n v rest in if same_text m n then (n, v) ∷ rest else (m, w) ∷ later

abbrev pub invalid_syntax : Raised
invalid_syntax = record { kind = value_error; text = "invalid interpolation syntax" }

-- `parser.set(section, name, value)`
unfoldable pub set_option : Text → Text → Options → Result Options
unfolding drop_pairs is_settable
set_option n v o =
    if is_settable outside (drop_pairs false v) then ok (store n v o) else err invalid_syntax

abbrev pub interpolation_error : String → Raised
interpolation_error m = record { kind = other; text = m }

abbrev pub or_missing : Option Text → Result Text
or_missing none = err (interpolation_error "InterpolationMissingOptionError")
or_missing (some v) = ok v

-- The pieces with the references replaced, and the values of these read by `inner`.
unfoldable pub fill : (Text → Result Text) → Options → List Piece → Result Text
fill inner o [] = ok []
fill inner o (character c ∷ ps) = do rest ← fill inner o ps; ok (c ∷ rest)
fill inner o (reference n ∷ ps) = do
  raw ← or_missing (raw_option (lower n) o)
  value ← (if has_percent raw then inner raw else ok raw)
  rest ← fill inner o ps
  ok (value ++ rest)
fill inner o (bad_syntax ∷ ps) = err (interpolation_error "InterpolationSyntaxError")

-- References in references, `f` deep at most.
unfoldable pub interpolate : ℕ → Options → Text → Result Text
unfolding pieces fill
interpolate zero o v = err (interpolation_error "InterpolationDepthError")
interpolate (suc f) o v = fill (interpolate f o) o (pieces outside v)

-- `parser.get(section, name)`; `no_option` is what is raised where there is none.
abbrev or_no_option : Option Text → Result Text
or_no_option none = err (interpolation_error "NoOptionError")
or_no_option (some v) = ok v

unfoldable pub get_option : Text → Options → Result Text
unfolding interpolate
get_option n o = do v ← or_no_option (raw_option n o); interpolate 10 o v

-- `parser.items(section)`: every value is read.
abbrev pub read_all : Options → Options → Result Options
read_all o [] = ok []
read_all o ((n, v) ∷ rest) = do
  value ← interpolate 10 o v
  values ← read_all o rest
  ok ((n, value) ∷ values)

unfoldable pub items : Options → Result Options
unfolding interpolate
items o = read_all o o
