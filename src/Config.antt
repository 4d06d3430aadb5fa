-- ===== src/Config.antt =====
-- The constants of CONFIG.h. Its paths are those of an installed server, without -D TEST.
use Prim.Native.String.{String}
use papaya_chat.Base.{ℕ}

abbrev pub pathname_term_async_safe : String
pathname_term_async_safe = "/usr/local/bin/papayachat/termHandlerAsyncSafe.bin"

abbrev pub buf_size : ℕ
buf_size = 4096

abbrev pub backlog_queue : ℕ
backlog_queue = 10

abbrev pub max_line_length : ℕ
max_line_length = 512

abbrev pub key_length : ℕ
key_length = 128

abbrev pub chat_log_path : String
chat_log_path = "/var/lib/papayachat/papayachat.chat"
