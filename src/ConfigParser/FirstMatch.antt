-- ===== src/ConfigParser/FirstMatch.antt =====
-- Which line the parser takes: the first that names the parameter.
use papaya_chat.Base.{
  ℕ, zero, suc, ◌+◌, ◌≤◌, ◌<◌, ◌≡◌, refl, List, [], ◌∷◌, some, true, false, Bytes, length, arith,
  if◌then◌else◌, ◌++◌, length-append,
}
use papaya_chat.Posix.{Kernel, run, returned, fopen, malloc, Block}
use papaya_chat.Config.{max_line_length}
use papaya_chat.CString.{fgets}
use papaya_chat.CString.Words.{
  is_word, same, pair_line, all_graphic_of_word, fgets-pair_line, sscanf_two-pair_line,
  strncmp_eq-same,
}
use papaya_chat.ConfigParser.{
  end_of_file, found, next_line, parse_line, Reading, parse_lines, parse_config_file,
}

pub record Setting : Type 0 where
  pub name : Bytes
  pub value : Bytes

-- A file with one setting on each line.
unfoldable pub print : List Setting → Bytes
print [] = []
print (e ∷ es) = pair_line e.name e.value (print es)

-- Words that fit on a line that one fgets(3) reads.
pub record IsSetting (e : Setting) : Type 0 where
  pub name_word : is_word e.name ≡ true
  pub value_word : is_word e.value ≡ true
  pub fits : length e.name + length e.value + 3 ≤ max_line_length

abbrev pub AllSettings : List Setting → Type 0
AllSettings [] = Unit
AllSettings (e ∷ es) = IsSetting e × AllSettings es

-- The first setting of that name; without one, the string is the last value on file.
unfoldable pub first_match : Bytes → Bytes → List Setting → Reading
first_match parameter value [] = record { success = false; return_value = value }
first_match parameter value (e ∷ es) =
    if same e.name parameter
    then record { success = true; return_value = e.value }
    else first_match parameter e.value es

parse_line-pair_line :
    (parameter value rest : Bytes) (e : Setting)
    → is_word parameter ≡ true
    → IsSetting e
    → parse_line (pair_line e.name e.value rest) parameter value ≡ record {
      result = if same e.name parameter then found else next_line;
      rest = rest;
      return_value = e.value;
    }
unfolding parse_line
parse_line-pair_line parameter value rest e w h = ground (
  arith,
  fgets-pair_line e.name e.value rest h.name_word h.value_word max_line_length h.fits,
  sscanf_two-pair_line e.name e.value h.name_word h.value_word,
  all_graphic_of_word e.name h.name_word,
  all_graphic_of_word parameter w,
  strncmp_eq-same max_line_length e.name parameter,
)

length-print : (es : List Setting) → length es ≤ length (print es)
unfolding print pair_line
length-print [] = omega arith
length-print (e ∷ es) = omega (
  arith,
  length-append e.name (b' ' ∷ (e.value ++ (b'\n' ∷ print es))),
  length-append e.value (b'\n' ∷ print es),
  length-print es,
)

parse_line-nil :
    (parameter value : Bytes)
    → parse_line [] parameter value
      ≡ record { result = end_of_file; rest = []; return_value = value }
unfolding parse_line fgets
parse_line-nil parameter value = refl

parse_lines-print :
    (rounds : ℕ) (parameter value : Bytes) (es : List Setting)
    → is_word parameter ≡ true
    → AllSettings es
    → length es < rounds
    → parse_lines rounds (print es) parameter value ≡ some (first_match parameter value es)
unfolding parse_lines print first_match
parse_lines-print zero parameter value es w h lt = elim lt [ ]
parse_lines-print (suc n) parameter value [] w h lt = ground (arith, parse_line-nil parameter value)
parse_lines-print (suc n) parameter value (e ∷ es) w h lt = ground (
  arith,
  parse_line-pair_line parameter value (print es) e w h.0,
  parse_lines-print n parameter e.value es w h.1,
)

-- Where the configuration file holds one setting on each line, `parseConfigFile` succeeds exactly
-- if a line names the parameter, and then delivers the value of the first such line, provided that
-- the file can be opened and the buffer allocated. Both kinds of result are `first_match`.
pub parse_config_file-print :
    {S : Type 0} (k : Kernel S) (s s' s'' : S) (pathname parameter value : Bytes) (handle : ℕ)
    (buffer : Block) (es : List Setting)
    → is_word parameter ≡ true
    → AllSettings es
    → k.answer (fopen pathname) s ≡ (some (record { handle = handle; content = print es }), s')
    → k.answer (malloc max_line_length) s' ≡ (some buffer, s'')
    → (run k (parse_config_file pathname parameter value) s).outcome
      ≡ returned (first_match parameter value es)
unfolding parse_config_file
parse_config_file-print k s s' s'' pathname parameter value handle buffer es w h opened allocated =
    ground
      (arith, parse_lines-print (suc (length (print es))) parameter value es w h, length-print es)
