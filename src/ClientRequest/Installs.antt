-- ===== src/ClientRequest/Installs.antt =====
-- Which handlers of signals the two processes of a client install.
use papaya_chat.Base.{ℕ, zero, suc, refl, Option, none, some, Bool, true, false}
use papaya_chat.Posix.{Prog, fork_failed, in_child, in_parent}
use papaya_chat.Posix.Live.{calm, plain-calm, Live, Live-Only}
use papaya_chat.Posix.Only.{Only-weaken, Only, Only-bind}
use papaya_chat.Posix.Disposition.{of_client, calm-of_client}
use papaya_chat.Signals.{activate_sigusr1}
use papaya_chat.ChatLog.{messages_from_first_client_connection}
use papaya_chat.ChatLog.Live.{messages_from_first_client_connection-Live}
use papaya_chat.ClientRequest.{
  read_chatlog_send_client, send_loop, start_sending, send_activated, send_new_messages,
  receive_messages, serve_as, handle_request,
}
use papaya_chat.ClientRequest.Calm.{receive_messages-Calm}
use papaya_chat.ClientRequest.Wakeups.{read_chatlog_send_client-Live}

-- No handler but that of SIGUSR1 and that of the timeout.
abbrev pub Installs : {A : Type 0} → Prog A → Type 0
Installs p = Only of_client p

pub Live-Installs : {A : Type 0} (p : Prog A) → Live p → Installs p
Live-Installs p h = Live-Only of_client p (λ c e. calm-of_client c (plain-calm c e)) h

send_loop-Installs :
    (rounds client_fd chatlog_fd offset : ℕ)
    → Installs (send_loop rounds client_fd chatlog_fd offset)
unfolding send_loop
send_loop-Installs zero client_fd chatlog_fd offset = tt
send_loop-Installs (suc rounds) client_fd chatlog_fd offset = (
  refl,
  λ r.
      Only-bind of_client (read_chatlog_send_client client_fd chatlog_fd offset) _
        (Live-Installs _ (read_chatlog_send_client-Live client_fd chatlog_fd offset))
        (send_loop-Installs rounds client_fd chatlog_fd),
)

start_sending-Installs :
    (rounds client_fd chatlog_fd : ℕ) (o : Option ℕ)
    → Installs (start_sending rounds client_fd chatlog_fd o)
unfolding start_sending
start_sending-Installs rounds client_fd chatlog_fd none = (refl, λ r. tt)
start_sending-Installs rounds client_fd chatlog_fd (some offset) =
    send_loop-Installs rounds client_fd chatlog_fd offset

send_activated-Installs :
    (rounds client_fd chatlog_fd : ℕ) (activated : Bool)
    → Installs (send_activated rounds client_fd chatlog_fd activated)
unfolding send_activated
send_activated-Installs rounds client_fd chatlog_fd false = (refl, λ r. tt)
send_activated-Installs rounds client_fd chatlog_fd true =
    Only-bind of_client (messages_from_first_client_connection chatlog_fd client_fd) _
      (Live-Installs _ (messages_from_first_client_connection-Live chatlog_fd client_fd))
      (start_sending-Installs rounds client_fd chatlog_fd)

send_new_messages-Installs :
    (rounds client_fd chatlog_fd : ℕ) → Installs (send_new_messages rounds client_fd chatlog_fd)
unfolding send_new_messages activate_sigusr1
send_new_messages-Installs rounds client_fd chatlog_fd = (
  refl,
  elim [
    | true ↦ (
      refl,
      elim [
        | true ↦ send_activated-Installs rounds client_fd chatlog_fd true
        | false ↦ send_activated-Installs rounds client_fd chatlog_fd false
      ],
    )
    | false ↦ send_activated-Installs rounds client_fd chatlog_fd false
  ],
)

receive_messages-Installs :
    (client_fd chatlog_fd child_pid rounds : ℕ)
    → Installs (receive_messages rounds client_fd chatlog_fd child_pid)
receive_messages-Installs client_fd chatlog_fd child_pid rounds =
    Only-weaken calm of_client _ calm-of_client
      (receive_messages-Calm client_fd chatlog_fd child_pid rounds)

pub handle_request-Installs :
    (rounds client_fd chatlog_fd : ℕ) → Installs (handle_request rounds client_fd chatlog_fd)
unfolding handle_request serve_as
handle_request-Installs rounds client_fd chatlog_fd = (
  refl,
  elim [
    | fork_failed ↦ (refl, λ r. tt)
    | in_child ↦
        Only-bind of_client (send_new_messages rounds client_fd chatlog_fd) _
          (send_new_messages-Installs rounds client_fd chatlog_fd)
          (λ u. receive_messages-Installs client_fd chatlog_fd 0 rounds)
    | in_parent pid ↦ receive_messages-Installs client_fd chatlog_fd pid rounds
  ],
)
