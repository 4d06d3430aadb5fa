-- ===== src/ChatLog.antt =====
-- file_locking.c: the chat log, its lock, and the last lines for a client that has just connected.
--
-- `fd` is the descriptor of the chat log. A result of -1 is `none` or `false`.
pub mod Tail
pub mod Locks
pub mod Live
pub mod Race
pub mod Transfer
pub mod Failures
use papaya_chat.Base.{
  ℕ, zero, suc, ◌+◌, ◌-◌, ◌*◌, List, [], ◌∷◌, Option, none, some, Bool, true, false, not, ◌&&◌,
  Bytes, length, drop, ltb, leb, ◌==◌, if◌then◌else◌,
}
use papaya_chat.Config.{chat_log_path}
use papaya_chat.Posix.{
  Prog, return, ends, spent, call, sys, ◌>>=◌, ◌>>◌, lock_sh, lock_ex, lock_un, sigusr1, Block,
  read, write, lseek_set, lseek_end, flock, open_file, malloc, free, kill,
}

abbrev pub max_characters_per_line : ℕ
max_characters_per_line = 150

abbrev pub lines_send_back_to_client : ℕ
lines_send_back_to_client = 7

abbrev pub max_characters_back_client : ℕ
max_characters_back_client = max_characters_per_line * lines_send_back_to_client

-- S_IRUSR | S_IWUSR | S_IRGRP | S_IWGRP
abbrev pub create_permissions : ℕ
create_permissions = 0o660

-- The flags O_RDWR | O_CREAT | O_APPEND | O_CLOEXEC are those of this one call of open(2).
unfoldable pub open_chat_log_file : Prog (Option ℕ)
open_chat_log_file = sys (open_file chat_log_path create_permissions)

-- Is the result of write(2) the number of bytes that it was given?
abbrev pub wrote : Bytes → Option ℕ → Bool
wrote bs none = false
wrote bs (some n) = n == length bs

unfoldable pub exclusive_write : ℕ → Bytes → Prog Bool
exclusive_write fd string = do
  locked ← sys (flock fd lock_ex)
  if not locked then return false else do
    done ← sys (write fd string)
    if not (wrote string done) then return false else do
      signalled ← sys (kill 0 sigusr1)
      if not signalled then return false else do
        unlocked ← sys (flock fd lock_un)
        if not unlocked then return false else return true

-- After read(2): a negative result, or the bytes.
unfoldable pub unlock_after_read : ℕ → Option Bytes → Prog (Option Bytes)
unlock_after_read fd none = return none
unlock_after_read fd (some bytes) = do
  unlocked ← sys (flock fd lock_un)
  if not unlocked then return none else return (some bytes)

-- The bytes go to the start of the buffer `string`, and their number is the result.
unfoldable pub shared_read : ℕ → ℕ → ℕ → Prog (Option Bytes)
unfolding unlock_after_read
shared_read fd size_string offset = do
  locked ← sys (flock fd lock_sh)
  if not locked then return none else do
    moved ← sys (lseek_set fd offset)
    if not moved
        then return none
        else do bytes ← sys (read fd size_string); unlock_after_read fd bytes

-- `if(flock(file_fd,LOCK_UN)==-1) return -1; return result;`
pub unlock_and_return : ℕ → Option ℕ → Prog (Option ℕ)
unlock_and_return fd result = do
  unlocked ← sys (flock fd lock_un)
  if not unlocked then return none else return result

-- The number of newlines in the text.
pub count_newlines : Bytes → ℕ → ℕ
count_newlines [] count = count
count_newlines (c ∷ cs) count = count_newlines cs (if c == b'\n' then count + 1 else count)

-- The index after the first newline, from index `i` on; 0 if there is none.
pub first_newline : Bytes → ℕ → ℕ
first_newline [] i = 0
first_newline (c ∷ cs) i = let rest = first_newline cs (i + 1) in if c == b'\n' then i + 1 else rest

-- The index after the newline that brings `count_newlines` up to `target`; `start` if none does.
pub start_of_text : Bytes → ℕ → ℕ → ℕ → ℕ → ℕ
start_of_text [] i seen target start = start
start_of_text (c ∷ cs) i seen target start =
    let rest = start_of_text cs (i + 1) (if c == b'\n' then seen + 1 else seen) target start in
    if c == b'\n' && (seen + 1) == target then i + 1 else rest

-- The part of the text that is sent: all of it, or what follows `startTextIndex`. The second test
-- is met only by counts above the limit, so that `count - 1 - 7` does not fall below 0.
unfoldable pub text_to_send : Bytes → Bytes
unfolding count_newlines first_newline start_of_text
text_to_send chat_text =
    let count = count_newlines chat_text 0 in
    if leb count lines_send_back_to_client
    then chat_text
    else (let newline_index = first_newline chat_text 0 in
        drop
          (start_of_text (drop newline_index chat_text) newline_index 0
            (count - 1 - lines_send_back_to_client) newline_index)
          chat_text)

-- From the offset of the last byte: where to start reading.
abbrev pub working_offset : ℕ → ℕ
working_offset last_byte =
    if ltb last_byte max_characters_back_client
    then 0
    else last_byte - max_characters_back_client + 1

-- After read(2) into the block `chat_text`.
send_text : ℕ → ℕ → ℕ → ℕ → Option Bytes → Prog (Option ℕ)
unfolding unlock_and_return
send_text fd client_fd last_byte chat_text none = do sys (free chat_text); unlock_and_return fd none
send_text fd client_fd last_byte chat_text (some bytes) = do
  sent ← sys (write client_fd (text_to_send bytes))
  sys (free chat_text)
  if not (wrote (text_to_send bytes) sent)
      then unlock_and_return fd none
      else unlock_and_return fd (some (last_byte + 1))

-- After malloc(3).
read_text : ℕ → ℕ → ℕ → Option Block → Prog (Option ℕ)
unfolding send_text
read_text fd client_fd last_byte none = unlock_and_return fd none
read_text fd client_fd last_byte (some chat_text) = do
  bytes ← sys (read fd max_characters_back_client)
  send_text fd client_fd last_byte chat_text.addr bytes

-- After lseek(2) to the end of the file.
from_last_byte : ℕ → ℕ → Option ℕ → Prog (Option ℕ)
unfolding read_text
from_last_byte fd client_fd none = unlock_and_return fd none
from_last_byte fd client_fd (some zero) = unlock_and_return fd (some 0)
from_last_byte fd client_fd (some (suc last_byte)) = do
  moved ← sys (lseek_set fd (working_offset last_byte))
  if not moved then unlock_and_return fd none else do
    chat_text ← sys (malloc max_characters_back_client)
    read_text fd client_fd last_byte chat_text

unfoldable pub messages_from_first_client_connection : ℕ → ℕ → Prog (Option ℕ)
unfolding from_last_byte
messages_from_first_client_connection fd client_fd = do
  locked ← sys (flock fd lock_sh)
  if not locked then return none else do end ← sys (lseek_end fd); from_last_byte fd client_fd end
