-- ===== src/ClientRequest/Wakeups.antt =====
-- A wake-up of the sending process goes on or ends the process: no loop stands in it.
use papaya_chat.Base.{ℕ, refl, [], ◌∷◌, Option, none, some, Bytes, take, length}
use papaya_chat.Posix.{Block}
use papaya_chat.Posix.Live.{if_not-Live, Live, Live-bind}
use papaya_chat.Config.{buf_size}
use papaya_chat.ChatLog.{wrote, shared_read}
use papaya_chat.ChatLog.Live.{shared_read-Live}
use papaya_chat.ClientRequest.{
  string_client, send_string, send_read, read_into, read_chatlog_send_client,
}

send_string-Live :
    (client_fd offset string_buf : ℕ) (bytes : Bytes) (o : Option Block)
    → Live (send_string client_fd offset string_buf bytes o)
unfolding send_string
send_string-Live client_fd offset string_buf bytes none = (refl, λ r. (refl, λ r'. tt))
send_string-Live client_fd offset string_buf bytes (some block) = (
  refl,
  λ sent.
      if_not-Live (wrote (take (length bytes) (string_client bytes block.junk)) sent) _ _
        (refl, λ r. (refl, λ r'. (refl, λ r''. tt))) (refl, λ r. (refl, λ r'. tt)),
)

pub send_read-Live :
    (client_fd offset string_buf : ℕ) (o : Option Bytes)
    → Live (send_read client_fd offset string_buf o)
unfolding send_read
send_read-Live client_fd offset string_buf none = (refl, λ r. (refl, λ r'. tt))
send_read-Live client_fd offset string_buf (some []) = (refl, λ r. tt)
send_read-Live client_fd offset string_buf (some (b ∷ bytes)) =
    (refl, λ block. send_string-Live client_fd offset string_buf (b ∷ bytes) block)

read_into-Live :
    (client_fd chatlog_fd offset : ℕ) (o : Option Block)
    → Live (read_into client_fd chatlog_fd offset o)
unfolding read_into
read_into-Live client_fd chatlog_fd offset none = (refl, λ r. tt)
read_into-Live client_fd chatlog_fd offset (some b) =
    Live-bind (shared_read chatlog_fd buf_size offset) _
      (shared_read-Live chatlog_fd buf_size offset) (send_read-Live client_fd offset b.addr)

pub read_chatlog_send_client-Live :
    (client_fd chatlog_fd offset : ℕ) → Live (read_chatlog_send_client client_fd chatlog_fd offset)
unfolding read_chatlog_send_client
read_chatlog_send_client-Live client_fd chatlog_fd offset =
    (refl, λ b. read_into-Live client_fd chatlog_fd offset b)
