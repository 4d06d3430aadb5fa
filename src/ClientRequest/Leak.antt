-- ===== src/ClientRequest/Leak.antt =====
-- clientRequest.c, `readChatlogSendClient` where the chat log holds a NUL.
use papaya_chat.Base.{
  ℕ, ◌+◌, ◌≡◌, refl, ap, ◌∙◌, [], ◌∷◌, ◌++◌, none, some, Option, true, false, Bytes, length, take,
  drop, arith, append-nil,
}
use papaya_chat.Config.{buf_size}
use papaya_chat.Posix.{Kernel, run, returned, malloc, Block}
use papaya_chat.Posix.Monitor.{written}
use papaya_chat.ChatLog.Failures.{some_fails}
use papaya_chat.ChatLog.Locks.{take-length}
use papaya_chat.ChatLog.Transfer.{ReadsLog}
use papaya_chat.ClientRequest.{string_client, send_string, send_read, read_chatlog_send_client}
use papaya_chat.ClientRequest.Failures.{read_chatlog_send_client_returned}
use papaya_chat.ClientRequest.Message.{no_nul, message_leaks}
use papaya_chat.ClientRequest.Send.{Delivers, read_chatlog_send_client-Delivers}

module _ {S : Type 0} (k : Kernel S) (client_fd : ℕ) (junk : ℕ → Bytes)
    (holds : (s : S) (n : ℕ) (b : Block)
      → (k.answer (malloc n) s).0 ≡ some b
      → b.junk ≡ junk n) where
  -- What is sent for a piece, with what the block of the second malloc held before.
  abbrev pub sent_for : Bytes → Bytes
  sent_for piece = take (length piece) (string_client piece (junk (length piece)))

  send_string-sent_for :
      (s : S) (offset string_buf : ℕ) (piece : Bytes) (o : Option Block)
      → ((b : Block) → o ≡ some b → b.junk ≡ junk (length piece))
      → Delivers k client_fd
          (run k (send_string client_fd offset string_buf piece o) s)
          offset
          piece
          (sent_for piece)
  unfolding send_string
  send_string-sent_for s offset string_buf piece none held next h = cc
  send_string-sent_for s offset string_buf piece (some block) held next h =
      ground (arith, held block refl, take-length (sent_for piece), append-nil (sent_for piece))

  send_read-sent_for :
      (s : S) (offset string_buf : ℕ) (piece : Bytes)
      → Delivers k client_fd
          (run k (send_read client_fd offset string_buf (some piece)) s)
          offset
          piece
          (sent_for piece)
  unfolding send_read
  send_read-sent_for s offset string_buf [] next h = ground arith
  send_read-sent_for s offset string_buf (b ∷ bytes) next h =
      let (block, s') = k.answer (malloc (length (b ∷ bytes))) s in
      send_string-sent_for s' offset string_buf (b ∷ bytes) block (holds s (length (b ∷ bytes)))
        next h

  -- On a kernel that reads the chat log as `ReadsLog` says, and whose malloc(3) gives for n bytes a
  -- block that held the bytes `junk n` before: let the next bytes of the chat log, at most 4096, be a
  -- text without a NUL, a NUL, and more bytes. A wake-up of the sender in which no call fails sends
  -- the client the text, the NUL, and then, instead of the bytes of the chat log, as many bytes of
  -- what the block held. The offset moves past all the bytes that were read, those behind the NUL
  -- included.
  pub read_chatlog_send_client-leaks :
      (chatlog_fd : ℕ) (file : S → Bytes) (at : S → ℕ)
      → ReadsLog k chatlog_fd file at
      → (s : S) (offset : ℕ) (text post : Bytes)
      → take buf_size (drop offset (file s)) ≡ text ++ 0 ∷ post
      → no_nul text ≡ true
      → let r = run k (read_chatlog_send_client client_fd chatlog_fd offset) s in
        some_fails false r.trace ≡ false
        → (r.outcome ≡ returned (offset + length (text ++ 0 ∷ post)))
          × (written client_fd r.trace
              ≡ text
                ++ 0
                  ∷ take (length post) (drop (length text + 1) (junk (length (text ++ 0 ∷ post)))))
  read_chatlog_send_client-leaks chatlog_fd file at log s offset text post e clean well =
      let piece = take buf_size (drop offset (file s)) in
      let (next, back) = read_chatlog_send_client_returned k client_fd chatlog_fd offset s well in
      let (moved, sent) =
        read_chatlog_send_client-Delivers k client_fd chatlog_fd file at log s offset
          (sent_for piece) (λ s' offset' string_buf. send_read-sent_for s' offset' string_buf piece)
          next back in
      (
        back ∙ ap returned (moved ∙ ap (λ p. offset + length p) e),
        sent ∙ ap sent_for e ∙ message_leaks text post (junk (length (text ++ 0 ∷ post))) clean,
      )
