-- ===== src/ClientRequest/Send.antt =====
-- The sending process: which bytes of the chat log reach the client.
use papaya_chat.Base.{
  subst, sym, ℕ, ◌+◌, ◌≡◌, ◌≢◌, refl, ◌∙◌, [], ◌∷◌, ◌++◌, Option, none, some, true, Bytes, length,
  take, drop, arith, ap₂, inl, inr, Bool-cases, append-nil,
}
use papaya_chat.Config.{buf_size}
use papaya_chat.Posix.{
  ◌>>=◌, Kernel, run, Run, returned, Block, malloc, flock, lock_sh, lock_un, lseek_set, read,
}
use papaya_chat.Posix.Monitor.{written}
use papaya_chat.ChatLog.Locks.{take-length}
use papaya_chat.ChatLog.Transfer.{ReadsLog}
use papaya_chat.ChatLog.{shared_read, unlock_after_read}
use papaya_chat.ClientRequest.{send_string, send_read, read_into, read_chatlog_send_client}
use papaya_chat.ClientRequest.Message.{init, no_nul, message_for, message-init}

module _ {S : Type 0} (k : Kernel S) (client_fd : ℕ) where
  abbrev pub Delivers : Run ℕ S → ℕ → Bytes → Bytes → Type 0
  Delivers r offset piece message =
      (next : ℕ)
      → r.outcome ≡ returned next
      → (next ≡ offset + length piece) × (written client_fd r.trace ≡ message)

  send_string-Delivers :
      (s : S) (offset string_buf b : ℕ) (bytes : Bytes) (o : Option Block)
      → no_nul (b ∷ bytes) ≡ true
      → Delivers
          (run k (send_string client_fd offset string_buf (b ∷ bytes) o) s)
          offset
          (b ∷ bytes)
          (message_for (b ∷ bytes))
  unfolding send_string message_for
  send_string-Delivers s offset string_buf b bytes none g next h = cc
  send_string-Delivers s offset string_buf b bytes (some block) g next h = ground (
    arith,
    message-init b bytes block.junk g,
    take-length (init (b ∷ bytes) ++ 0 ∷ []),
    append-nil (init (b ∷ bytes) ++ 0 ∷ []),
  )

  pub send_read-Delivers :
      (s : S) (offset string_buf : ℕ) (bytes : Bytes)
      → no_nul bytes ≡ true
      → Delivers
          (run k (send_read client_fd offset string_buf (some bytes)) s)
          offset
          bytes
          (message_for bytes)
  unfolding send_read message_for
  send_read-Delivers s offset string_buf [] g next h = ground arith
  send_read-Delivers s offset string_buf (b ∷ bytes) g next h =
      let (block, s') = k.answer (malloc (length (b ∷ bytes))) s in
      send_string-Delivers s' offset string_buf b bytes block g next h

  send_read-none :
      (s : S) (offset string_buf next : ℕ)
      → (run k (send_read client_fd offset string_buf none) s).outcome ≢ returned next
  unfolding send_read
  send_read-none s offset string_buf next h = ground arith

module _ {S : Type 0} (k : Kernel S) (client_fd chatlog_fd : ℕ) (file : S → Bytes) (at : S → ℕ)
    (log : ReadsLog k chatlog_fd file at) where
  -- What is sent for a piece that has been read.
  abbrev pub Sends : Bytes → Bytes → Type 0
  Sends piece message =
      (s : S) (offset string_buf : ℕ)
      → Delivers k client_fd (run k (send_read client_fd offset string_buf (some piece)) s) offset
          piece message

  after_read-Delivers :
      (s : S) (offset string_buf : ℕ) (piece message : Bytes) (o : Option Bytes)
      → Sends piece message
      → ((bs : Bytes) → o ≡ some bs → bs ≡ piece)
      → Delivers k client_fd
          (run k (unlock_after_read chatlog_fd o >>= send_read client_fd offset string_buf) s)
          offset
          piece
          message
  unfolding unlock_after_read
  after_read-Delivers s offset string_buf piece message none g e next h =
      absurd (send_read-none k client_fd s offset string_buf next h)
  after_read-Delivers s offset string_buf piece message (some bytes) g e next h =
      let s' = (k.answer (flock chatlog_fd lock_un) s).1 in
      let g' : Sends bytes message = subst (λ p. Sends p message) (sym (e bytes refl)) g in
      ground (
        arith,
        e bytes refl,
        send_read-none k client_fd s' offset string_buf next,
        g' s' offset string_buf next,
      )

  shared_read-Delivers :
      (s : S) (offset string_buf : ℕ) (message : Bytes)
      → Sends (take buf_size (drop offset (file s))) message
      → Delivers k client_fd
          (run k
            (shared_read chatlog_fd buf_size offset >>= send_read client_fd offset string_buf)
            s)
          offset
          (take buf_size (drop offset (file s)))
          message
  unfolding shared_read
  shared_read-Delivers s offset string_buf message g next h =
      let s₁ = (k.answer (flock chatlog_fd lock_sh) s).1 in
      let s₂ = (k.answer (lseek_set chatlog_fd offset) s₁).1 in
      let bytes : Option Bytes = (k.answer (read chatlog_fd buf_size) s₂).0 in
      let s₃ = (k.answer (read chatlog_fd buf_size) s₂).1 in
      let same : file s₂ ≡ file s = log.keeps_set s₁ offset ∙ log.keeps_lock s in
      elim (Bool-cases (k.answer (lseek_set chatlog_fd offset) s₁).0) [
        | inl moved ↦
            let there : at s₂ ≡ offset = log.moves s₁ offset moved in
            ground (
              arith,
              moved,
              send_read-none k client_fd s₁ offset string_buf next,
              after_read-Delivers s₃ offset string_buf (take buf_size (drop offset (file s)))
                  message bytes g
                  (λ bs e.
                    log.reads s₂ buf_size bs e ∙ ap₂ (λ o f. take buf_size (drop o f)) there same)
                  next,
            )
        | inr stays ↦ ground (
          arith,
          stays,
          send_read-none k client_fd s₁ offset string_buf next,
          send_read-none k client_fd s₂ offset string_buf next,
        )
      ]

  read_into-Delivers :
      (s : S) (offset : ℕ) (message : Bytes) (o : Option Block)
      → Sends (take buf_size (drop offset (file s))) message
      → Delivers k client_fd
          (run k (read_into client_fd chatlog_fd offset o) s)
          offset
          (take buf_size (drop offset (file s)))
          message
  unfolding read_into
  read_into-Delivers s offset message none g next h = cc
  read_into-Delivers s offset message (some b) g next h =
      shared_read-Delivers s offset b.addr message g next h

  pub read_chatlog_send_client-Delivers :
      (s : S) (offset : ℕ) (message : Bytes)
      → Sends (take buf_size (drop offset (file s))) message
      → Delivers k client_fd
          (run k (read_chatlog_send_client client_fd chatlog_fd offset) s)
          offset
          (take buf_size (drop offset (file s)))
          message
  unfolding read_chatlog_send_client
  read_chatlog_send_client-Delivers s offset message g next h =
      let (block, s') = k.answer (malloc buf_size) s in
      let same : file s' ≡ file s = (log.keeps_malloc s buf_size).0 in
      rw (← same) (read_into-Delivers s' offset message block (rw same g) next h)

  -- On a kernel that reads the chat log as `ReadsLog` says, one wake-up of the sender, where the
  -- next bytes of the chat log hold no NUL: if it goes on, it has sent exactly the next piece of at
  -- most 4096 bytes from its offset on, with the last byte replaced by a NUL (nothing if there is
  -- no new byte), and its offset has moved on by the length of that piece.
  pub read_chatlog_send_client-piece :
      (s : S) (offset next : ℕ)
      → no_nul (take buf_size (drop offset (file s))) ≡ true
      → (run k (read_chatlog_send_client client_fd chatlog_fd offset) s).outcome ≡ returned next
      → let piece = take buf_size (drop offset (file s)) in
        let r = run k (read_chatlog_send_client client_fd chatlog_fd offset) s in
        (next ≡ offset + length piece) × (written client_fd r.trace ≡ message_for piece)
  read_chatlog_send_client-piece s offset next g h =
      let piece = take buf_size (drop offset (file s)) in
      read_chatlog_send_client-Delivers s offset (message_for piece)
        (λ s offset string_buf. send_read-Delivers k client_fd s offset string_buf piece g) next h
