-- ===== src/Server/Accept.antt =====
-- What a client that is not let in can reach.
use papaya_chat.Base.{
  ℕ, ◌≡◌, ◌≢◌, refl, ap₂, ◌∙◌, List, [], ◌∷◌, ◌++◌, Option, none, some, Bool, true, false, Bytes,
  arith,
}
use papaya_chat.Config.{key_length}
use papaya_chat.Posix.{
  Kernel, run, Run, Outcome, returned, ended, running, Event, Block, read, alarm, malloc, sigalrm,
  timeout_handler, no_flags, sigaction, sigemptyset, log_debug, syslog, openlog,
}
use papaya_chat.Posix.Monitor.{written}
use papaya_chat.Posix.Runs.{run-bind, continue, written-append}
use papaya_chat.Signals.{configure_timeout}
use papaya_chat.Server.{check_key, await_key, auth_client, child}

module _ {S : Type 0} (k : Kernel S) (fd : ℕ) where
  check_key-written :
      (key : Bytes) (buf : Block) (o : Option Bytes) (s : S)
      → written fd (run k (check_key key buf o) s).trace ≡ []
  unfolding check_key
  check_key-written key buf none s = refl
  check_key-written key buf (some []) s = refl
  check_key-written key buf (some (b ∷ bytes)) s = ground arith

  await_key-written :
      (client_fd : ℕ) (key : Bytes) (o : Option Block) (s : S)
      → written fd (run k (await_key client_fd key o) s).trace ≡ []
  unfolding await_key
  await_key-written client_fd key none s = refl
  await_key-written client_fd key (some b) s =
      let (key_read, s') = k.answer (read client_fd key_length) (k.answer (alarm 1) s).1 in
      check_key-written key b key_read s'

  auth_client-written :
      (client_fd : ℕ) (key : Bytes) (s : S)
      → written fd (run k (auth_client client_fd key) s).trace ≡ []
  unfolding auth_client configure_timeout
  auth_client-written client_fd key s =
      let s₁ =
        (k.answer (sigaction sigalrm timeout_handler no_flags) (k.answer sigemptyset s).1).1 in
      let (block, s₂) = k.answer (malloc key_length) s₁ in
      ground (arith, await_key-written client_fd key block s₂)

  -- Where the check does not come out as valid, what follows it writes nothing.
  dropped-written :
      (o : Outcome Bool) (t : List Event) (s : S) (f : Bool → S → Run (Unit {0}) S)
      → o ≢ returned true
      → written fd t ≡ []
      → ((s : S) → written fd (f false s).trace ≡ [])
      → ((s : S) → (f false s).outcome ≢ returned tt)
      → (written fd (continue o t s f).trace ≡ []) × ((continue o t s f).outcome ≢ returned tt)
  dropped-written (returned true) t s f refused h g n = absurd (refused refl)
  dropped-written (returned false) t s f refused h g n =
      (written-append fd t (f false s).trace ∙ ap₂ ◌++◌ h (g s), n s)
  dropped-written (ended x) t s f refused h g n = (h, λ e. cc)
  dropped-written running t s f refused h g n = (h, λ e. cc)

  -- Whatever the kernel replies: if `authClient` does not return 0 in the child process, then the
  -- child writes no byte to any descriptor, neither to the client nor to the chat log, and it does
  -- not return to the accept loop.
  pub child-written :
      (rounds listen_fd client_fd chatlog_fd key_addr : ℕ) (key : Bytes) (s : S)
      → (run k
          (auth_client client_fd key)
          (k.answer
            (syslog log_debug "Child process initialized (handling client connection)")
            (k.answer (openlog "papayaChat(child)") s).1).1).outcome
        ≢ returned true
      → let r = run k (child rounds listen_fd client_fd chatlog_fd key key_addr) s in
        (written fd r.trace ≡ []) × (r.outcome ≢ returned tt)
  unfolding child
  child-written rounds listen_fd client_fd chatlog_fd key_addr key s refused =
      let s' =
        (k.answer (syslog log_debug "Child process initialized (handling client connection)")
          (k.answer (openlog "papayaChat(child)") s).1).1 in
      rw (run-bind k (auth_client client_fd key) _ s') (
        dropped-written _ _ _ _ refused (auth_client-written client_fd key s') (λ s₁. refl)
          (λ s₁ e. cc))
