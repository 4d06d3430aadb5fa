-- ===== src/ClientRequest/Fallthrough.antt =====
-- The switch of `handleRequest`, whose case for the sending process has no break.
use papaya_chat.Base.{ℕ, zero, suc, ◌≡◌, ◌≢◌, refl, ap, List, Option, none, some, Bool, true, false}
use papaya_chat.Posix.{
  Kernel, Event, run, Run, Outcome, returned, ended, running, after, in_child, fork, pause,
}
use papaya_chat.Posix.Runs.{run-bind, continue}
use papaya_chat.Signals.{activate_sigusr1}
use papaya_chat.ChatLog.{messages_from_first_client_connection}
use papaya_chat.ClientRequest.{
  read_chatlog_send_client, send_loop, start_sending, send_activated, send_new_messages,
  receive_messages, serve_as, handle_request,
}

continue-ne :
    {A S : Type 0} (o : Outcome A) (t : List Event) (s : S) (f : A → S → Run (Unit {0}) S)
    → ((a : A) → (f a s).outcome ≢ returned tt)
    → (continue o t s f).outcome ≢ returned tt
continue-ne (returned a) t s f h = h a
continue-ne (ended x) t s f h = λ e. cc
continue-ne running t s f h = λ e. cc

-- What does not return is not followed by anything.
continue-same :
    {S : Type 0} (o : Outcome (Unit {0})) (t : List Event) (s : S)
    (f : Unit {0} → S → Run (Unit {0}) S)
    → o ≢ returned tt
    → continue o t s f ≡ record { trace = t; outcome = o; final = s }
continue-same (returned a) t s f h = absurd (h refl)
continue-same (ended x) t s f h = refl
continue-same running t s f h = refl

module _ {S : Type 0} (k : Kernel S) (client_fd chatlog_fd : ℕ) where
  send_loop-ne :
      (rounds offset : ℕ) (s : S)
      → (run k (send_loop rounds client_fd chatlog_fd offset) s).outcome ≢ returned tt
  unfolding send_loop
  send_loop-ne zero offset s = λ e. cc
  send_loop-ne (suc n) offset s =
      let s₁ = (k.answer pause s).1 in
      let r = run k (read_chatlog_send_client client_fd chatlog_fd offset) s₁ in
      rw
        (run-bind k (read_chatlog_send_client client_fd chatlog_fd offset)
          (send_loop n client_fd chatlog_fd) s₁)
        (continue-ne r.outcome r.trace r.final _ (λ next. send_loop-ne n next r.final))

  start_sending-ne :
      (rounds : ℕ) (o : Option ℕ) (s : S)
      → (run k (start_sending rounds client_fd chatlog_fd o) s).outcome ≢ returned tt
  unfolding start_sending
  start_sending-ne rounds none s = λ e. cc
  start_sending-ne rounds (some offset) s = send_loop-ne rounds offset s

  send_activated-ne :
      (rounds : ℕ) (activated : Bool) (s : S)
      → (run k (send_activated rounds client_fd chatlog_fd activated) s).outcome ≢ returned tt
  unfolding send_activated
  send_activated-ne rounds false s = λ e. cc
  send_activated-ne rounds true s =
      let first = messages_from_first_client_connection chatlog_fd client_fd in
      let r = run k first s in
      rw (run-bind k first (start_sending rounds client_fd chatlog_fd) s)
        (continue-ne r.outcome r.trace r.final _ (λ o. start_sending-ne rounds o r.final))

  send_new_messages-ne :
      (rounds : ℕ) (s : S)
      → (run k (send_new_messages rounds client_fd chatlog_fd) s).outcome ≢ returned tt
  unfolding send_new_messages
  send_new_messages-ne rounds s =
      let r = run k activate_sigusr1 s in
      rw (run-bind k activate_sigusr1 (send_activated rounds client_fd chatlog_fd) s)
        (continue-ne r.outcome r.trace r.final _ (λ b. send_activated-ne rounds b r.final))

  -- Whatever the kernel replies: in the process where fork(2) gives 0, `handleRequest` does what
  -- `sendNewMessages` does, and no more. The case falls through to the receiver with a pid of 0,
  -- with which `killChild` would signal the whole group, but control never comes there.
  pub handle_request-send_new_messages :
      (rounds : ℕ) (s : S)
      → (k.answer fork s).0 ≡ in_child
      → run k (handle_request rounds client_fd chatlog_fd) s
        ≡ after
            (record { asked = fork; reply = in_child })
            (run k (send_new_messages rounds client_fd chatlog_fd) (k.answer fork s).1)
  unfolding handle_request serve_as
  handle_request-send_new_messages rounds s h =
      let s₁ = (k.answer fork s).1 in
      let sending = send_new_messages rounds client_fd chatlog_fd in
      let r = run k sending s₁ in
      rw (h, run-bind k sending (λ _. receive_messages rounds client_fd chatlog_fd 0) s₁)
        (ap (after (record { asked = fork; reply = in_child })) (
          continue-same r.outcome r.trace r.final
            (λ _. run k (receive_messages rounds client_fd chatlog_fd 0))
            (send_new_messages-ne rounds s₁)))
