-- ===== src/Errors.antt =====
-- error_handling.c: diagnostics on the standard error stream, and the end of the process.
--
-- The message of a call is the text that its format and arguments make; `errno` is an argument.
-- The table `ename` of error names is in a generated file: it is a parameter, with MAX_ENAME, and so
-- is strerror(3). Nothing calls `usage_err` and `cmd_line_err`.
pub mod Text
pub mod Ends
use papaya_chat.Base.{
  String, codes, ℕ, ◌-◌, List, [], ◌∷◌, ◌++◌, Option, none, some, Bool, true, false, ◌&&◌, Bytes,
  take, ltb, leb, if◌then◌else◌,
}
use papaya_chat.Posix.{
  Prog, return, ends, spent, call, sys, ◌>>=◌, ◌>>◌, exit, exit_now, abort, getenv, fflush_stdout,
  fflush_stderr, fputs_stderr, diagnose,
}

-- After getenv(3).
unfoldable pub terminate_by : Bool → Option Bytes → {A : Type 0} → Prog A
terminate_by use_exit3 none = if use_exit3 then ends (exit 1) else ends (exit_now 1)
terminate_by use_exit3 (some []) = if use_exit3 then ends (exit 1) else ends (exit_now 1)
terminate_by use_exit3 (some (c ∷ cs)) = ends abort

unfoldable pub terminate : Bool → {A : Type 0} → Prog A
unfolding terminate_by
terminate use_exit3 = do value ← sys (getenv "EF_DUMPCORE"); terminate_by use_exit3 value

-- `errExit`, for the other modules: what it prints is given by its format alone.
unfoldable pub stop_with : {A : Type 0} → String → Prog A
unfolding terminate
stop_with message = sys (diagnose message) >> terminate true

-- The buffers of `outputError`.
abbrev pub error_buf_size : ℕ
error_buf_size = 500

-- snprintf and vsnprintf into a buffer of n bytes keep n - 1 characters.
abbrev pub cut : Bytes → Bytes
cut = take (error_buf_size - 1)

module _ (ename : ℕ → Bytes) (max_ename : ℕ) (strerror : ℕ → Bytes) where
  -- The name of an error number.
  abbrev pub error_name : ℕ → Bytes
  error_name err =
      if ltb 0 err && leb err max_ename then ename err else codes "**UNKNOWN?? Error code**"

  abbrev pub error_text : Bool → ℕ → Bytes
  error_text use_err err =
      if use_err
      then codes " [" ++ (error_name err ++ (codes " " ++ (strerror err ++ codes "]")))
      else codes ":"

  -- What `outputError` prints.
  pub output_text : Bool → ℕ → Bytes → Bytes
  output_text use_err err message = cut (
      codes "ERROR" ++ (cut (error_text use_err err) ++ (codes " " ++ (cut message ++ codes "\n"))))

  pub output_error : Bool → ℕ → Bool → Bytes → Prog (Unit {0})
  output_error use_err err flush_stdout message = do
    if flush_stdout then sys fflush_stdout else return tt
    sys (fputs_stderr (output_text use_err err message))
    sys fflush_stderr

  -- The result is errno, restored.
  pub err_msg : ℕ → Bytes → Prog ℕ
  unfolding output_error
  err_msg errno message = do output_error true errno true message; return errno

  pub err_exit : ℕ → Bytes → Prog (Unit {0})
  unfolding output_error terminate
  err_exit errno message = do output_error true errno true message; terminate true

  -- `err_exit` of the source, beside its `errExit`.
  pub err_exit_now : ℕ → Bytes → Prog (Unit {0})
  unfolding output_error terminate
  err_exit_now errno message = do output_error true errno false message; terminate false

  pub err_exit_en : ℕ → Bytes → Prog (Unit {0})
  unfolding output_error terminate
  err_exit_en errnum message = do output_error true errnum true message; terminate true

  pub fatal : Bytes → Prog (Unit {0})
  unfolding output_error terminate
  fatal message = do output_error false 0 true message; terminate true

pub usage_err : Bytes → Prog (Unit {0})
usage_err message = do
  sys fflush_stdout
  sys (fputs_stderr (codes "Usage: "))
  sys (fputs_stderr message)
  sys fflush_stderr
  ends (exit 1)

pub cmd_line_err : Bytes → Prog (Unit {0})
cmd_line_err message = do
  sys fflush_stdout
  sys (fputs_stderr (codes "Command-line usage error: "))
  sys (fputs_stderr message)
  sys fflush_stderr
  ends (exit 1)
