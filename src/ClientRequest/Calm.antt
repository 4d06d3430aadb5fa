-- ===== src/ClientRequest/Calm.antt =====
-- The receiving process never waits in pause(2) and installs no handler.
use papaya_chat.Base.{ℕ, zero, suc, refl, [], ◌∷◌, Option, none, some, true, false, Bytes}
use papaya_chat.Posix.{Prog}
use papaya_chat.Posix.Live.{calm, plain-calm, Live-Only}
use papaya_chat.Posix.Only.{Only, Only-bind}
use papaya_chat.ChatLog.{exclusive_write}
use papaya_chat.ChatLog.Live.{exclusive_write-Live}
use papaya_chat.ClientRequest.{
  again, done, kill_child, handle_read, receive_into, receive_round, receive_loop, receive_messages,
}

abbrev pub Calm : {A : Type 0} → Prog A → Type 0
Calm p = Only calm p

kill_child-Calm : (child_pid : ℕ) → Calm (kill_child child_pid)
unfolding kill_child
kill_child-Calm child_pid = (refl, elim [ true ↦ (refl, λ r. tt) | false ↦ (refl, λ r. tt) ])

module _ (client_fd chatlog_fd child_pid : ℕ) where
  handle_read-Calm : (buf : ℕ) (o : Option Bytes) → Calm (handle_read chatlog_fd child_pid buf o)
  unfolding handle_read
  handle_read-Calm buf none = (
    refl,
    λ r.
        (refl, λ r'. Only-bind calm (kill_child child_pid) _ (kill_child-Calm child_pid) (λ u. tt)),
  )
  handle_read-Calm buf (some []) = (refl, λ r. (refl, λ r'. tt))
  handle_read-Calm buf (some (b ∷ bytes)) = (
    refl,
    λ r.
        Only-bind calm (exclusive_write chatlog_fd (b ∷ bytes)) _
          (Live-Only calm _ plain-calm (exclusive_write-Live chatlog_fd (b ∷ bytes)))
          (elim [
            | true ↦ (refl, λ r'. tt)
            | false ↦ (
              refl,
              λ r'. (
                refl,
                λ r''.
                    Only-bind calm (kill_child child_pid) _ (kill_child-Calm child_pid) (λ u. tt),
              ),
            )
          ]),
  )

  receive_round-Calm : Calm (receive_round client_fd chatlog_fd child_pid)
  unfolding receive_round receive_into
  receive_round-Calm =
      (refl, elim [ none ↦ (refl, λ r. tt) | some block ↦ (refl, handle_read-Calm block.addr) ])

  receive_loop-Calm : (rounds : ℕ) → Calm (receive_loop rounds client_fd chatlog_fd child_pid)
  unfolding receive_loop
  receive_loop-Calm zero = tt
  receive_loop-Calm (suc rounds) =
      Only-bind calm (receive_round client_fd chatlog_fd child_pid) _ receive_round-Calm
        (elim [ again ↦ receive_loop-Calm rounds | done ↦ tt ])

  pub receive_messages-Calm :
      (rounds : ℕ) → Calm (receive_messages rounds client_fd chatlog_fd child_pid)
  unfolding receive_messages
  receive_messages-Calm rounds =
      Only-bind calm (receive_loop rounds client_fd chatlog_fd child_pid) _
        (receive_loop-Calm rounds)
        (λ u. Only-bind calm (kill_child child_pid) _ (kill_child-Calm child_pid) (λ u'. tt))
