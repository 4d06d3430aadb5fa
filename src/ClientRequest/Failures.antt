-- ===== src/ClientRequest/Failures.antt =====
-- clientRequest.c, `readChatlogSendClient` when a call fails: the sending process has no way to go on.
-- The handler of SIGUSR1 is installed without SA_RESTART, so that a call that waits (write(2) to a
-- slow client) fails with EINTR where the signal interrupts it.
use papaya_chat.ClientRequest.Send.{read_chatlog_send_client-piece}
use papaya_chat.ClientRequest.Message.{no_nul, message_for}
use papaya_chat.ChatLog.Transfer.{ReadsLog}
use papaya_chat.Posix.Monitor.{written}
use papaya_chat.Base.{
  ◌⊎◌, drop, ◌+◌, ap, ◌∙◌, ℕ, ◌≡◌, refl, [], ◌∷◌, Option, none, some, Bool, true, false, ◌||◌,
  Bytes, length, take, inl, inr, Bool-cases,
}
use papaya_chat.Config.{buf_size}
use papaya_chat.Posix.{
  Exit, Prog, return, ends, spent, call, Outcome, Kernel, run, returned, ended, exit_now, Block,
}
use papaya_chat.ChatLog.{wrote, shared_read}
use papaya_chat.ChatLog.Failures.{fails, some_fails, Strict, Strict-bind, Told, shared_read-Strict}
use papaya_chat.ClientRequest.{
  string_client, send_string, send_read, read_into, read_chatlog_send_client,
}

-- How a run comes out that returns if and only if no call fails.
data Outcomes {A : Type 0} : Bool → Outcome A → Type 0 where
  goes_on : (a : A) → Outcomes false (returned a)
  gives_up : Outcomes true (ended (exit_now 1))

Outcomes-returned :
    {A : Type 0} {failed : Bool} {o : Outcome A}
    → Outcomes failed o
    → failed ≡ false
    → (a : A) × (o ≡ returned a)
Outcomes-returned (goes_on a) h = (a, refl)
Outcomes-returned gives_up h = cc

abbrev Failure : Exit → Type 0
Failure x = x ≡ exit_now 1

abbrev Succeeded : {A : Type 0} → Bool → A → Type 0
Succeeded failed a = failed ≡ false

run-Outcomes :
    {A S : Type 0} (k : Kernel S) (p : Prog A) (s : S) (failed : Bool)
    → Strict Succeeded Failure failed p
    → let r = run k p s in Outcomes (some_fails failed r.trace) r.outcome
run-Outcomes k (return a) s failed h = rw h (goes_on a)
run-Outcomes k (ends x) s failed h = rw (h.0, h.1) gives_up
run-Outcomes k spent s failed h = absurd h
run-Outcomes k (call c f) s failed h =
    let (r, s') = k.answer c s in run-Outcomes k (f r) s' (fails c r || failed) (h r)

send_string-Strict :
    (client_fd offset string_buf : ℕ) (bytes : Bytes) (block : Block)
    → Strict Succeeded Failure false (send_string client_fd offset string_buf bytes (some block))
unfolding send_string
send_string-Strict client_fd offset string_buf bytes block = λ sent.
    elim (Bool-cases (wrote (take (length bytes) (string_client bytes block.junk)) sent)) [
      | inl e ↦ rw e (λ r r'. refl)
      | inr e ↦ rw e (λ r r' r''. (refl, refl))
    ]

send_read-Strict :
    (client_fd offset string_buf : ℕ) (failed : Bool) (o : Option Bytes)
    → Told failed o
    → Strict Succeeded Failure failed (send_read client_fd offset string_buf o)
unfolding send_read send_string
send_read-Strict client_fd offset string_buf failed none h = λ r r'. (h, refl)
send_read-Strict client_fd offset string_buf failed (some []) h = λ r. h
send_read-Strict client_fd offset string_buf failed (some (b ∷ bytes)) h = elim [
  | none ↦ λ r r'. (refl, refl)
  | some block ↦ rw h (send_string-Strict client_fd offset string_buf (b ∷ bytes) block)
]

read_chatlog_send_client-Strict :
    (client_fd chatlog_fd offset : ℕ)
    → Strict Succeeded Failure false (read_chatlog_send_client client_fd chatlog_fd offset)
unfolding read_chatlog_send_client read_into
read_chatlog_send_client-Strict client_fd chatlog_fd offset = elim [
  | none ↦ λ r. (refl, refl)
  | some block ↦
      Strict-bind Told Succeeded Failure (shared_read chatlog_fd buf_size offset) _ false
        (shared_read-Strict chatlog_fd buf_size offset)
        λ failed o told. send_read-Strict client_fd offset block.addr failed o told
]

-- Whatever the kernel replies in a wake-up of the sending process: if no call fails, the function
-- returns and the process can wait for the next signal; if any call fails (a lock, a seek, a read, a
-- write that takes fewer bytes included, or malloc), the process ends with EXIT_FAILURE.
read_chatlog_send_client-Outcomes :
    {S : Type 0} (k : Kernel S) (client_fd chatlog_fd offset : ℕ) (s : S)
    → let r = run k (read_chatlog_send_client client_fd chatlog_fd offset) s in
      Outcomes (some_fails false r.trace) r.outcome
read_chatlog_send_client-Outcomes k client_fd chatlog_fd offset s =
    run-Outcomes k (read_chatlog_send_client client_fd chatlog_fd offset) s false
      (read_chatlog_send_client-Strict client_fd chatlog_fd offset)

pub read_chatlog_send_client_returned :
    {S : Type 0} (k : Kernel S) (client_fd chatlog_fd offset : ℕ) (s : S)
    → let r = run k (read_chatlog_send_client client_fd chatlog_fd offset) s in
      some_fails false r.trace ≡ false → (next : ℕ) × (r.outcome ≡ returned next)
read_chatlog_send_client_returned k client_fd chatlog_fd offset s h =
    Outcomes-returned (read_chatlog_send_client-Outcomes k client_fd chatlog_fd offset s) h

Outcomes-cases :
    {A : Type 0} {failed : Bool} {o : Outcome A}
    → Outcomes failed o
    → ((failed ≡ false) × ((a : A) × (o ≡ returned a)))
      ⊎ ((failed ≡ true) × (o ≡ ended (exit_now 1)))
Outcomes-cases (goes_on a) = inl (refl, (a, refl))
Outcomes-cases gives_up = inr (refl, refl)

-- On a kernel that reads the chat log as `ReadsLog` says, one wake-up of the sender, where the next
-- bytes of the chat log hold no NUL. If no call fails: it has sent exactly the next piece of at most
-- 4096 bytes from its offset on, with the last byte replaced by a NUL (nothing if there is no new
-- byte), and goes on with its offset after that piece. If any call fails, the process has ended with
-- EXIT_FAILURE.
pub read_chatlog_send_client_total :
    {S : Type 0} (k : Kernel S) (client_fd chatlog_fd : ℕ) (file : S → Bytes) (at : S → ℕ)
    → ReadsLog k chatlog_fd file at
    → (s : S) (offset : ℕ) → no_nul (take buf_size (drop offset (file s))) ≡ true
    → let piece = take buf_size (drop offset (file s)) in
      let r = run k (read_chatlog_send_client client_fd chatlog_fd offset) s in
      ((some_fails false r.trace ≡ false)
        × (r.outcome ≡ returned (offset + length piece))
        × (written client_fd r.trace ≡ message_for piece))
      ⊎ ((some_fails false r.trace ≡ true) × (r.outcome ≡ ended (exit_now 1)))
read_chatlog_send_client_total k client_fd chatlog_fd file at log s offset clean =
    elim (Outcomes-cases (read_chatlog_send_client-Outcomes k client_fd chatlog_fd offset s)) [
      | inl (well, (next, given)) ↦
          let (moved, sent) =
            read_chatlog_send_client-piece k client_fd chatlog_fd file at log s offset next clean
              given in
          inl (well, given ∙ ap returned moved, sent)
      | inr failed ↦ inr failed
    ]
