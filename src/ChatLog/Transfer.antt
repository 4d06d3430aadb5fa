-- ===== src/ChatLog/Transfer.antt =====
-- What the readers of the chat log deliver, under a kernel that reads a file as POSIX documents.
use papaya_chat.Base.{
  take-all, ℕ, zero, suc, ◌+◌, ◌-◌, ◌≡◌, ◌≢◌, refl, ap, [], ◌∷◌, Option, none, some, true, Bytes,
  length, take, drop, append-nil, arith, length-drop, sym, ◌∙◌,
}
use papaya_chat.Posix.{
  Kernel, run, Run, returned, lock_sh, lock_un, read, lseek_set, lseek_end, malloc, Block, flock,
}
use papaya_chat.Posix.Monitor.{lock_of, written}
use papaya_chat.ChatLog.Tail.{last_lines, last_lines-nil, text_to_send-last_lines}
use papaya_chat.ChatLog.Locks.{take-length}
use papaya_chat.ChatLog.{
  working_offset, max_characters_back_client, lines_send_back_to_client, shared_read,
  messages_from_first_client_connection, text_to_send, from_last_byte, read_text, send_text,
  unlock_and_return,
}

-- The kernel reads the chat log through descriptor `fd`: what it holds, and where the descriptor's
-- offset stands. The calls of a reader do not change the file; while it holds the shared lock,
-- nobody else may.
pub record ReadsLog {S : Type 0} (k : Kernel S) (fd : ℕ) (file : S → Bytes) (at : S → ℕ)
    : Type 0 where
  pub end_is : (s : S) (n : ℕ) → (k.answer (lseek_end fd) s).0 ≡ some n → n ≡ length (file s)
  pub moves :
      (s : S) (o : ℕ)
      → (k.answer (lseek_set fd o) s).0 ≡ true
      → at (k.answer (lseek_set fd o) s).1 ≡ o
  pub reads :
      (s : S) (n : ℕ) (bs : Bytes)
      → (k.answer (read fd n) s).0 ≡ some bs
      → bs ≡ take n (drop (at s) (file s))
  pub keeps_lock : (s : S) → file (k.answer (flock fd lock_sh) s).1 ≡ file s
  pub keeps_end : (s : S) → file (k.answer (lseek_end fd) s).1 ≡ file s
  pub keeps_set : (s : S) (o : ℕ) → file (k.answer (lseek_set fd o) s).1 ≡ file s
  pub keeps_malloc :
      (s : S) (n : ℕ)
      → (file (k.answer (malloc n) s).1 ≡ file s) × (at (k.answer (malloc n) s).1 ≡ at s)

unlock_and_return-none :
    {S : Type 0} (k : Kernel S) (s : S) (fd n : ℕ)
    → (run k (unlock_and_return fd none) s).outcome ≢ returned (some n)
unfolding unlock_and_return
unlock_and_return-none k s fd n h = ground arith

send_text-none :
    {S : Type 0} (k : Kernel S) (s : S) (fd client_fd last_byte b n : ℕ)
    → (run k (send_text fd client_fd last_byte b none) s).outcome ≢ returned (some n)
unfolding send_text
send_text-none k s fd client_fd last_byte b n h = ground arith

unlock_and_return_sent :
    {S : Type 0} (k : Kernel S) (s : S) (fd client_fd m n : ℕ)
    → let r = run k (unlock_and_return fd (some m)) s in
      r.outcome ≡ returned (some n) → (n ≡ m) × (written client_fd r.trace ≡ [])
unfolding unlock_and_return
unlock_and_return_sent k s fd client_fd m n h = ground arith

drop-empty : (n : ℕ) (l : Bytes) → 0 ≡ length l → drop n l ≡ []
drop-empty zero [] e = refl
drop-empty (suc n) [] e = refl
drop-empty n (a ∷ l) e = absurd (omega arith)

-- A result other than -1: the text was sent whole.
send_text_sent :
    {S : Type 0} (k : Kernel S) (s : S) (fd client_fd last_byte b n : ℕ) (bytes : Bytes)
    → let r = run k (send_text fd client_fd last_byte b (some bytes)) s in
      r.outcome ≡ returned (some n)
      → (n ≡ last_byte + 1) × (written client_fd r.trace ≡ text_to_send bytes)
unfolding send_text
send_text_sent k s fd client_fd last_byte b n bytes h =
    ground (arith, take-length (text_to_send bytes), append-nil (text_to_send bytes))

working_offset_lem :
    (size total : ℕ) → total ≡ suc size → working_offset size ≡ total - max_characters_back_client
working_offset_lem size total e = ground arith

-- The bytes from the working offset on are the last 1050, or all.
tail-drop :
    (size : ℕ) (text : Bytes)
    → length text ≡ suc size
    → take max_characters_back_client (drop (working_offset size) text)
      ≡ drop (length text - max_characters_back_client) text
tail-drop size text e = rw (working_offset_lem size (length text) e) (
    take-all max_characters_back_client _
      (omega (arith, length-drop (length text - max_characters_back_client) text)))

module _ {S : Type 0} (k : Kernel S) (fd : ℕ) (file : S → Bytes) (at : S → ℕ)
    (log : ReadsLog k fd file at) where
  -- On a kernel that reads the chat log as `ReadsLog` says: a successful `sharedRead` delivers the
  -- bytes of the chat log from the offset on, as many as the buffer holds, and has released the
  -- lock.
  shared_read-file :
      (s : S) (size offset : ℕ) (bytes : Bytes)
      → (run k (shared_read fd size offset) s).outcome ≡ returned (some bytes)
      → (bytes ≡ take size (drop offset (file s)))
        × (lock_of fd lock_un (run k (shared_read fd size offset) s).trace ≡ lock_un)
  unfolding shared_read
  shared_read-file s size offset bytes h =
      let s₁ = (k.answer (flock fd lock_sh) s).1 in
      let s₂ = (k.answer (lseek_set fd offset) s₁).1 in
      ground (
        arith,
        log.keeps_lock s,
        log.moves s₁ offset,
        log.keeps_set s₁ offset,
        log.reads s₂ size bytes,
      )

  -- If the run returns an offset, it is `size`, and the last lines of `text` were sent.
  abbrev Sends : ℕ → Run (Option ℕ) S → ℕ → Bytes → Type 0
  Sends client_fd r size text =
      (n : ℕ)
      → r.outcome ≡ returned (some n)
      → (n ≡ size) × (written client_fd r.trace ≡ last_lines lines_send_back_to_client text)

  send_text-Sends :
      (s : S) (client_fd last_byte b : ℕ) (o : Option Bytes) (text : Bytes)
      → ((bs : Bytes) → o ≡ some bs → bs ≡ text)
      → Sends client_fd (run k (send_text fd client_fd last_byte b o) s) (last_byte + 1) text
  send_text-Sends s client_fd last_byte b none text e n h =
      absurd (send_text-none k s fd client_fd last_byte b n h)
  send_text-Sends s client_fd last_byte b (some bytes) text e n h =
      let sent = send_text_sent k s fd client_fd last_byte b n bytes h in
      (sent.0, sent.1 ∙ text_to_send-last_lines bytes ∙ ap (last_lines 7) (e bytes refl))

  read_text-Sends :
      (s : S) (client_fd last_byte : ℕ) (o : Option Block)
      → Sends client_fd
          (run k (read_text fd client_fd last_byte o) s)
          (last_byte + 1)
          (take max_characters_back_client (drop (at s) (file s)))
  unfolding read_text
  read_text-Sends s client_fd last_byte none n h = absurd (unlock_and_return-none k s fd n h)
  read_text-Sends s client_fd last_byte (some b) n h =
      send_text-Sends _ client_fd last_byte b.addr _ _ (log.reads s max_characters_back_client) n h

  from_last_byte-Sends :
      (s : S) (client_fd : ℕ) (o : Option ℕ)
      → ((n : ℕ) → o ≡ some n → n ≡ length (file s))
      → Sends client_fd
          (run k (from_last_byte fd client_fd o) s)
          (length (file s))
          (drop (length (file s) - max_characters_back_client) (file s))
  unfolding from_last_byte
  from_last_byte-Sends s client_fd none e n h = absurd (unlock_and_return-none k s fd n h)
  from_last_byte-Sends s client_fd (some zero) e n h = ground (
    arith,
    e 0 refl,
    unlock_and_return_sent k s fd client_fd 0 n,
    drop-empty (length (file s) - max_characters_back_client) (file s),
    last_lines-nil lines_send_back_to_client,
  )
  from_last_byte-Sends s client_fd (some (suc last_byte)) e n h =
      let (moved, s₁) = k.answer (lseek_set fd (working_offset last_byte)) s in
      let (block, s₂) = k.answer (malloc max_characters_back_client) s₁ in
      ground (
        arith,
        e (suc last_byte) refl,
        unlock_and_return-none k s₁ fd n,
        log.moves s (working_offset last_byte),
        log.keeps_set s (working_offset last_byte),
        log.keeps_malloc s₁ max_characters_back_client,
        tail-drop last_byte (file s),
        read_text-Sends s₂ client_fd last_byte block n,
      )

  -- On a kernel that reads the chat log as `ReadsLog` says: when
  -- `messagesFromFirstClientConnection` returns an offset, it is the size of the chat log, and the
  -- client was sent the longest ending of the last 1050 bytes that has at most seven newlines.
  pub messages_from_first_client_connection-Sends :
      (s : S) (client_fd n : ℕ)
      → (run k (messages_from_first_client_connection fd client_fd) s).outcome ≡ returned (some n)
      → (n ≡ length (file s))
        × (written client_fd (run k (messages_from_first_client_connection fd client_fd) s).trace
            ≡ last_lines lines_send_back_to_client
                (drop (length (file s) - max_characters_back_client) (file s)))
  unfolding messages_from_first_client_connection
  messages_from_first_client_connection-Sends s client_fd n h =
      let s₁ = (k.answer (flock fd lock_sh) s).1 in
      let (end, s₂) = k.answer (lseek_end fd) s₁ in
      ground (
        arith,
        log.keeps_lock s,
        log.keeps_end s₁,
        from_last_byte-Sends s₂ client_fd end
            (λ m h'. log.end_is s₁ m h' ∙ sym (ap length (log.keeps_end s₁))) n,
      )
