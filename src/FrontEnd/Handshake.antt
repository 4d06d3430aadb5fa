-- ===== src/FrontEnd/Handshake.antt =====
-- The client's key at the server's door.
use papaya_chat.Base.{
  ℕ, String, subst, Bool-cases, inl, inr, ◌≡◌, ◌≢◌, ap, sym, ◌∙◌, some, true, not, Bytes, length,
  take, arith, append-nil, if◌then◌else◌,
}
use papaya_chat.Config.{key_length}
use papaya_chat.CString.Words.{same, all_graphic}
use papaya_chat.Posix.{
  ◌>>=◌, Kernel, run, Outcome, returned, ended, running, return, sys, Block, write,
}
use papaya_chat.Posix.Monitor.{written}
use papaya_chat.ChatLog.{wrote}
use papaya_chat.ChatLog.Locks.{take-length}
use papaya_chat.Errors.{stop_with}
use papaya_chat.Errors.Ends.{Stops, stop_with-Stops}
use papaya_chat.Server.{auth_client}
use papaya_chat.Server.Auth.{timeout_reply, buffer_reply, key_reply, auth_client-same}
use papaya_chat.FrontEnd.{send_auth_key}

Stops-ne : (o : Outcome (Unit {0})) → Stops o → o ≢ returned tt
Stops-ne (returned a) h = absurd h
Stops-ne (ended x) h = λ e. cc
Stops-ne running h = absurd h

-- A message that was written, or else the process stops.
write_or_stop-written :
    {S : Type 0} (k : Kernel S) (s : S) (fd : ℕ) (m : Bytes) (message : String)
    → let program =
        sys (write fd m) >>= λ sent. if not (wrote m sent) then stop_with message else return tt in
      (run k program s).outcome ≡ returned tt → written fd (run k program s).trace ≡ m
write_or_stop-written k s fd m message h =
    let (sent, s₁) = k.answer (write fd m) s in
    elim (Bool-cases (wrote m sent)) [
      | inl e ↦ rw e (ground (arith, e, take-length m, append-nil m))
      | inr e ↦ absurd (
          Stops-ne (run k (stop_with {A = Unit {0}} message) s₁).outcome
            (stop_with-Stops (Unit {0}) k s₁ message)
            (subst
              (λ b.
                (run k (if not b then stop_with message else return tt) s₁).outcome ≡ returned tt)
              e h))
    ]

-- When the key was sent, it was sent whole.
send_auth_key-written :
    {S : Type 0} (k : Kernel S) (s : S) (server_fd : ℕ) (key : Bytes)
    → length key ≡ key_length
    → (run k (send_auth_key server_fd key) s).outcome ≡ returned tt
    → written server_fd (run k (send_auth_key server_fd key) s).trace ≡ key
unfolding send_auth_key
send_auth_key-written k s server_fd key size h =
    write_or_stop-written k s server_fd (take key_length key) "key auth write() failed: " h
    ∙ ap (λ n. take n key) (sym size)
    ∙ take-length key

-- If `sendAuthKey` returns at the client, and at the server one read gives what was sent, with the
-- timeout configured and the buffer allocated, then `authClient` lets the client in exactly if its
-- key is the server's, for keys of 128 bytes and a server's key with no NUL and no white space.
pub send_auth_key-auth_client :
    {S T : Type 0} (k : Kernel S) (s : S) (k' : Kernel T) (s' : T) (server_fd client_fd : ℕ)
    (buf : Block) (sent key : Bytes)
    → (timeout_reply k' s' client_fd).0 ≡ true
    → (buffer_reply k' s' client_fd).0 ≡ some buf
    → length sent ≡ key_length
    → length key ≡ key_length
    → all_graphic key ≡ true
    → (run k (send_auth_key server_fd sent) s).outcome ≡ returned tt
    → (key_reply k' s' client_fd).0
      ≡ some (written server_fd (run k (send_auth_key server_fd sent) s).trace)
    → (run k' (auth_client client_fd key) s').outcome ≡ returned (same sent key)
send_auth_key-auth_client k s k' s' server_fd client_fd buf sent key t b e e' g returns came =
    let whole = send_auth_key-written k s server_fd sent e returns in
    (auth_client-same k' s' client_fd buf t b key sent e' g e (came ∙ ap some whole)).0
