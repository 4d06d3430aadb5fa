-- ===== src/ConfigParser.antt =====
-- configParser.c: the value of a parameter in a configuration file.
pub mod Lines
pub mod Bounds
pub mod FirstMatch
use papaya_chat.Base.{
  ℕ, zero, suc, List, [], ◌∷◌, Option, none, some, Bool, true, false, Bytes, length, if◌then◌else◌,
}
use papaya_chat.Config.{max_line_length}
use papaya_chat.CString.{c_str, strncmp_eq, sscanf_two, fgets}
use papaya_chat.Posix.{
  Prog, return, ends, spent, call, sys, ◌>>=◌, ◌>>◌, Block, Stream, fopen, fclose, malloc, free,
}

-- The results 0, 1 and -1 of `parseLine`.
pub data Line : Type 0 where
  found next_line end_of_file : Line

-- What `parseLine` leaves: its result, the rest of the stream, and the string in `returnValue`.
pub record Parsed : Type 0 where
  pub result : Line
  pub rest : Bytes
  pub return_value : Bytes

-- After sscanf: anything but two conversions leaves `returnValue` alone.
compare_line : Bytes → Bytes → Bytes → List Bytes → Parsed
compare_line parameter value rest (name ∷ second ∷ []) = record {
  result = if strncmp_eq max_line_length name parameter then found else next_line;
  rest = rest;
  return_value = second;
}
compare_line parameter value rest _ = record {
  result = next_line;
  rest = rest;
  return_value = value;
}

scan_line : Bytes → Bytes → Option (Bytes × Bytes) → Parsed
unfolding compare_line
scan_line parameter value none = record { result = end_of_file; rest = []; return_value = value }
scan_line parameter value (some (buffer, rest)) =
    compare_line parameter value rest (sscanf_two (c_str buffer))

unfoldable pub parse_line : Bytes → Bytes → Bytes → Parsed
unfolding scan_line
parse_line stream parameter value = scan_line parameter value (fgets max_line_length stream)

-- The result of `parseConfigFile` (true is 0, false is -1), with the string in `returnValue`.
pub record Reading : Type 0 where
  pub success : Bool
  pub return_value : Bytes

-- The for-loop; a round reads a line.
unfoldable pub parse_lines : ℕ → Bytes → Bytes → Bytes → Option Reading
parse_lines zero stream parameter value = none
parse_lines (suc rounds) stream parameter value =
    let line = parse_line stream parameter value in
    elim line.result [
      | found ↦ some (record { success = true; return_value = line.return_value })
      | next_line ↦ parse_lines rounds line.rest parameter line.return_value
      | end_of_file ↦ some (record { success = false; return_value = line.return_value })
    ]

-- After the loop: free the buffer and close the stream.
close_config : ℕ → ℕ → Option Reading → Prog Reading
close_config buffer handle none = spent
close_config buffer handle (some result) = do sys (free buffer); sys (fclose handle); return result

parse_stream : Bytes → Bytes → Stream → Option Block → Prog Reading
unfolding close_config
parse_stream parameter value fs none = return (record { success = false; return_value = value })
parse_stream parameter value fs (some buffer) =
    close_config buffer.addr fs.handle
      (parse_lines (suc (length fs.content)) fs.content parameter value)

open_config : Bytes → Bytes → Option Stream → Prog Reading
unfolding parse_stream
open_config parameter value none = return (record { success = false; return_value = value })
open_config parameter value (some fs) = do
  buffer ← sys (malloc max_line_length)
  parse_stream parameter value fs buffer

-- `value` is the string that `returnValue` holds before.
unfoldable pub parse_config_file : Bytes → Bytes → Bytes → Prog Reading
unfolding open_config
parse_config_file pathname parameter value = do
  fs ← sys (fopen pathname)
  open_config parameter value fs
