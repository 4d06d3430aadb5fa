-- ===== src/FrontEnd.antt =====
-- frontEnd.c: what the interactive client parses and sends before its relays start.
pub mod Handshake
pub mod Sizes
use papaya_chat.Base.{
  ℕ, String, codes, ◌++◌, Option, none, some, Bool, true, false, not, Bytes, take, if◌then◌else◌,
}
use papaya_chat.Config.{key_length}
use papaya_chat.ConfigParser.{parse_config_file}
use papaya_chat.Posix.{
  Block, malloc, free, getenv, undefined, Prog, return, ends, spent, call, sys, ◌>>=◌, ◌>>◌, write,
}
use papaya_chat.ChatLog.{wrote}
use papaya_chat.Errors.{stop_with}

-- `key` is the memory from the pointer on, of at least KEY_LENGTH bytes.
unfoldable pub send_auth_key : ℕ → Bytes → Prog (Unit {0})
send_auth_key server_fd key = do
  sent ← sys (write server_fd (take key_length key))
  if not (wrote (take key_length key) sent)
      then stop_with "key auth write() failed: "
      else return tt

-- The strings in the four blocks that `main` allocates.
pub record Strings : Type 0 where
  pub username : Bytes
  pub port : Bytes
  pub host : Bytes
  pub key : Bytes

-- `if(parseConfigFile(…)==-1) errExit(…);`, with the string that is left.
pub parse_or_stop : Bytes → String → Bytes → String → Prog Bytes
parse_or_stop pathname parameter value message = do
  parsed ← parse_config_file pathname (codes parameter) value
  if not parsed.success then stop_with message else return parsed.return_value

-- After getenv(3): strcpy from a null pointer is undefined.
pub parse_strings : ℕ → Strings → Option Bytes → Prog Strings
parse_strings client_config_file before none = ends undefined
parse_strings client_config_file before (some home_path) = do
  let pathname = home_path ++ codes "/.papayachat/client.config"
  username ← parse_or_stop pathname "USERNAME" before.username "parseConfigFile for username failed"
  port ← parse_or_stop pathname "PORT" before.port "parseConfigFile for port failed"
  host ← parse_or_stop pathname "HOST" before.host "parseConfigFile for host failed"
  key ← parse_or_stop pathname "KEY" before.key "parseConfigFile for key failed"
  sys (free client_config_file)
  return (record { username = username ++ codes ": "; port = port; host = host; key = key })

-- After malloc.
pub home_strings : Strings → Option Block → Prog Strings
home_strings before none = stop_with "malloc failed"
home_strings before (some client_config_file) = do
  home_path ← sys (getenv "HOME")
  parse_strings client_config_file.addr before home_path

pub get_config_values : Strings → Prog Strings
get_config_values before = do
  client_config_file ← sys (malloc 1024)
  home_strings before client_config_file
