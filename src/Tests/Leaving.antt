-- ===== src/Tests/Leaving.antt =====
-- A client leaves: the end of the two processes that served it.
use papaya_chat.ClientRequest.Orphans.{receive_messages-Settles, attempts}
use papaya_chat.Base.{none, ℕ, zero, suc, ◌≡◌, refl, List, [], ◌∷◌, some, true}
use papaya_chat.Config.{buf_size}
use papaya_chat.Posix.{
  run, Kernel, Reply, Call, Prog, ends, exit_now, Exit, read, malloc, free, kill, syslog, sigterm,
  log_debug,
}
use papaya_chat.Posix.Monitor.{written, received}
use papaya_chat.Posix.Together.{By, by, local}
use papaya_chat.Posix.Group.{Group, makes, Steps, stop, later}
use papaya_chat.ClientRequest.{
  send_loop, receive_messages, receive_loop, receive_round, receive_into, handle_read, kill_child,
}
use papaya_chat.ClientRequest.Gone.{receive_messages-gone}
use papaya_chat.Tests.Sim.{reply_of, Sim}
use papaya_chat.Tests.Logs.{start}
use papaya_chat.Tests.Groups.{hall, step}

-- Process 1 waits to send, and process 2 receives from the same client, which has left.
abbrev served : ℕ → Prog (Unit {0})
served zero = send_loop 2 6 3 19
served (suc zero) = send_loop 2 4 3 19
served (suc (suc n)) = receive_messages 2 4 3 1

abbrev open_connection : Group (Unit {0}) Sim
open_connection = record { processes = served; state = record start { input = [] } }

abbrev closed_connection : Group (Unit {0}) Sim
closed_connection = step 2 (step 2 (step 2 (step 2 (step 2 (step 2 open_connection)))))

abbrev closing : List By
closing = by 2 (
    record { asked = malloc buf_size; reply = some (record { addr = 1; junk = [] }) }
    ∷ record { asked = read 4 buf_size; reply = some [] }
    ∷ record { asked = free 1; reply = tt }
    ∷ record { asked = syslog log_debug "Received EOF from client!"; reply = tt }
    ∷ record { asked = kill 1 sigterm; reply = true }
    ∷ record { asked = syslog log_debug "Killed child process PID: %d."; reply = tt }
    ∷ [])

closing-Steps : Steps hall open_connection closing closed_connection
unfolding receive_messages receive_loop receive_round receive_into handle_read kill_child
closing-Steps = later (makes 2 _ _ (exit_now 0) refl refl) (
    later (makes 2 _ _ (exit_now 0) refl refl) (
      later (makes 2 _ _ (exit_now 0) refl refl) (
        later (makes 2 _ _ (exit_now 0) refl refl) (
          later (makes 2 _ _ (exit_now 0) refl refl)
            (later (makes 2 _ _ (exit_now 0) refl refl) (stop _))))))

receive_messages-gone_example :
    (written 3 (local 2 closing) ≡ received 4 (local 2 closing))
    × ((y : Exit) × (closed_connection.processes 1 ≡ ends y))
unfolding receive_messages receive_loop receive_round receive_into handle_read kill_child
receive_messages-gone_example =
    receive_messages-gone hall 2 1 4 3 2 closing-Steps refl refl refl refl

-- The connection breaks.
abbrev broken_reply_of : (c : Call) → Sim → Reply c × Sim
broken_reply_of (read fd n) s = (none, s)
broken_reply_of c s = reply_of c s

abbrev broken : Kernel Sim
broken = record { answer = broken_reply_of }

receive_messages-Settles_example :
    attempts 77 (run broken (receive_messages 5 4 3 77) start).trace ≡ tt ∷ []
unfolding receive_messages receive_loop receive_round receive_into handle_read kill_child
receive_messages-Settles_example = receive_messages-Settles broken 4 3 77 5 start
