-- ===== src/Server/Auth.antt =====
-- Who is let in.
use papaya_chat.Base.{
  ℕ, zero, suc, ◌≡◌, refl, ap, ◌∙◌, ◌⊎◌, [], ◌∷◌, ◌++◌, Option, none, some, Bool, true, Bytes,
  length, drop, arith,
}
use papaya_chat.Config.{key_length}
use papaya_chat.CString.{strncmp_eq, overwrite}
use papaya_chat.CString.Words.{same, all_graphic}
use papaya_chat.Posix.{
  Kernel, run, returned, ended, exit_now, Block, read, alarm, malloc, sigalrm, timeout_handler,
  no_flags, sigaction, sigemptyset,
}
use papaya_chat.Posix.Monitor.{heap}
use papaya_chat.Signals.{configure_timeout}
use papaya_chat.Server.{auth_client}

-- A whole key is compared as it is: the key holds no NUL, so that no shorter text can match.
strncmp_eq_whole :
    (n : ℕ) (a b rest : Bytes)
    → length a ≡ n
    → length b ≡ n
    → all_graphic b ≡ true
    → strncmp_eq n (a ++ rest) b ≡ same a b
unfolding strncmp_eq same all_graphic
strncmp_eq_whole zero [] [] rest e e' g = refl
strncmp_eq_whole zero [] (y ∷ b) rest e e' g = absurd (omega arith)
strncmp_eq_whole zero (x ∷ a) b rest e e' g = absurd (omega arith)
strncmp_eq_whole (suc n) [] b rest e e' g = absurd (omega arith)
strncmp_eq_whole (suc n) (x ∷ a) [] rest e e' g = absurd (omega arith)
strncmp_eq_whole (suc n) (x ∷ a) (y ∷ b) rest e e' g = ground (arith, strncmp_eq_whole n a b rest)

strncmp_eq_self : (n : ℕ) (a : Bytes) → strncmp_eq n a a ≡ true
unfolding strncmp_eq
strncmp_eq_self zero a = refl
strncmp_eq_self (suc n) [] = refl
strncmp_eq_self (suc n) (x ∷ a) = ground (arith, strncmp_eq_self n a)

module _ {S : Type 0} (k : Kernel S) (s : S) (client_fd : ℕ) where
  -- The replies of the kernel on the way to the key.
  abbrev pub timeout_reply : Bool × S
  timeout_reply = k.answer (sigaction sigalrm timeout_handler no_flags) (k.answer sigemptyset s).1

  abbrev pub buffer_reply : Option Block × S
  buffer_reply = k.answer (malloc key_length) timeout_reply.1

  abbrev pub key_reply : Option Bytes × S
  key_reply = k.answer (read client_fd key_length) (k.answer (alarm 1) buffer_reply.1).1

  module _ (buf : Block) (configured : timeout_reply.0 ≡ true)
      (allocated : buffer_reply.0 ≡ some buf) where
    -- What `authClient` does with the bytes that read(2) gives.
    auth_client_lem :
        (key : Bytes) (b : ℕ) (bytes : Bytes)
        → key_reply.0 ≡ some (b ∷ bytes)
        → let r = run k (auth_client client_fd key) s in
          (r.outcome ≡ returned (strncmp_eq key_length (overwrite (b ∷ bytes) buf.junk) key))
          × (heap [] r.trace ≡ [])
    unfolding auth_client configure_timeout
    auth_client_lem key b bytes came = (ground arith, ground arith)

    -- If the timeout is configured, the buffer allocated, and the client's 128 bytes come in one
    -- read, then `authClient` lets the client in exactly if they are the key, for a key of 128
    -- characters with no NUL and no white space. The buffer is freed either way.
    pub auth_client-same :
        (key bytes : Bytes)
        → length key ≡ key_length
        → all_graphic key ≡ true
        → length bytes ≡ key_length
        → key_reply.0 ≡ some bytes
        → let r = run k (auth_client client_fd key) s in
          (r.outcome ≡ returned (same bytes key)) × (heap [] r.trace ≡ [])
    auth_client-same key [] e g e' came = absurd (omega arith)
    auth_client-same key (b ∷ bytes) e g e' came =
        rw
          (← strncmp_eq_whole key_length (b ∷ bytes) key (drop (suc (length bytes)) buf.junk) e' e
            g)
          (auth_client_lem key b bytes came)

    -- If the timeout is configured and the buffer allocated: a read that is cut short is completed
    -- by what the heap block held before. If the bytes that came and that rest make up the key,
    -- then the client is let in, although it sent less.
    pub auth_client_short :
        (b : ℕ) (bytes rest : Bytes)
        → drop (suc (length bytes)) buf.junk ≡ rest
        → key_reply.0 ≡ some (b ∷ bytes)
        → (run k (auth_client client_fd (b ∷ (bytes ++ rest))) s).outcome ≡ returned true
    auth_client_short b bytes rest e came = rw (← e) (
        (auth_client_lem (b ∷ (bytes ++ drop (suc (length bytes)) buf.junk)) b bytes came).0
        ∙ ap returned
            (strncmp_eq_self key_length (b ∷ (bytes ++ drop (suc (length bytes)) buf.junk))))

  -- Without an answer there is no way in: if the timeout is configured, then at the end of the
  -- connection and at an error of read(2) the process ends with EXIT_FAILURE.
  pub auth_client_closed :
      (key : Bytes)
      → timeout_reply.0 ≡ true
      → (key_reply.0 ≡ none) ⊎ (key_reply.0 ≡ some [])
      → (run k (auth_client client_fd key) s).outcome ≡ ended (exit_now 1)
  unfolding auth_client configure_timeout
  auth_client_closed key configured h = ground arith
