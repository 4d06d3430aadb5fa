-- ===== src/Tests/Groups.antt =====
-- The processes of a group, on a kernel that appends to one chat log.
use papaya_chat.Delivery.Back.{read_chatlog_send_client-shown}
use papaya_chat.Screen.Shown.{shown_in}
use papaya_chat.Screen.{print_messages_from_server, fetch_and_show, show_message, wrap_text}
use papaya_chat.Messages.{
  handle_read_socket, receive_round, receive_into, receive_read, fetch_message,
}
use papaya_chat.Server.Dispositions.{accept_loop-IsHarmless}
use papaya_chat.Server.{accept_loop}
use papaya_chat.Posix.Disposition.{disposition, IsHarmless}
use papaya_chat.Tests.Clients.{serving}
use papaya_chat.ChatLog.Locks.{take-length}
use papaya_chat.Base.{
  codes, ℕ, zero, suc, ◌+◌, ◌≡◌, refl, sym, append-nil, List, [], ◌∷◌, ◌++◌, length, take, true,
  arith, some,
}
use papaya_chat.Config.{buf_size}
use papaya_chat.CString.{c_str, snprintf_s}
use papaya_chat.Posix.{
  exit_now, sigterm, term_handler, sig_ign, run, Call, Reply, Prog, return, call, ◌>>=◌, ◌>>◌,
  Event, read, write, kill, pause, flock, lock_ex, lock_un, sigusr1,
}
use papaya_chat.Posix.Monitor.{taken, written}
use papaya_chat.Posix.Together.{Shared, By, by}
use papaya_chat.Posix.Group.{Group, moved, makes, Steps, stop, later}
use papaya_chat.Posix.Group.Alone.{own}
use papaya_chat.ChatLog.{exclusive_write, shared_read, unlock_after_read}
use papaya_chat.ChatLog.Transfer.{ReadsLog}
use papaya_chat.ClientRequest.{send_loop, send_read, read_chatlog_send_client}
use papaya_chat.ClientRequest.Message.{message_for, no_nul}
use papaya_chat.ClientRequest.Multicast.{send_loop-multicast}
use papaya_chat.Tests.Sim.{sim, next_input-log, Sim, reply_of}
use papaya_chat.Tests.Logs.{start}

abbrev quiet_reply_of : (c : Call) → Sim → Reply c × Sim
quiet_reply_of pause s = (tt, s)
quiet_reply_of c s = reply_of c s

abbrev pub hall : Shared Sim
hall = record { answer = λ i c s. quiet_reply_of c s }

hall-ReadsLog : ReadsLog (own hall 1) 3 (λ s. s.log) (λ s. s.at)
hall-ReadsLog = record {
  end_is = λ s n e. ground arith;
  moves = λ s o e. refl;
  reads = λ s n bs e. ground arith;
  keeps_lock = λ s. refl;
  keeps_end = λ s. refl;
  keeps_set = λ s o. refl;
  keeps_malloc = λ s n. (refl, refl);
}

hall-appends :
    (i : ℕ) (c : Call) (s : Sim) → let (r, s') = hall.answer i c s in s'.log ≡ s.log ++ taken 3 c r
hall-appends i (write fd bs) s = ground (arith, take-length bs, append-nil s.log)
hall-appends i (read fd n) s = ground (arith, next_input-log s.input s, append-nil s.log)
hall-appends i c s = sym (append-nil s.log)

-- One call of a process.
abbrev step_by : Prog (Unit {0}) → ℕ → Group (Unit {0}) Sim → Group (Unit {0}) Sim
step_by (call c f) i g = let (r, s) = hall.answer i c g.state in moved g i c r (exit_now 0) (f r) s
step_by p i g = g

abbrev pub step : ℕ → Group (Unit {0}) Sim → Group (Unit {0}) Sim
step i g = step_by (g.processes i) i g

-- Process 0 has a message of its client to store, and process 1 has sent the whole chat log.
abbrev two : ℕ → Prog (Unit {0})
two zero = exclusive_write 3 (codes "eva: hi\n") >> return tt
two (suc n) = send_loop 2 4 3 19

abbrev before : Group (Unit {0}) Sim
before = record { processes = two; state = start }

abbrev stored : Group (Unit {0}) Sim
stored = step 0 (step 0 (step 0 (step 0 before)))

abbrev storing : List By
storing = by 0 (
    record { asked = flock 3 lock_ex; reply = true }
    ∷ record { asked = write 3 (codes "eva: hi\n"); reply = some 8 }
    ∷ record { asked = kill 0 sigusr1; reply = true }
    ∷ record { asked = flock 3 lock_un; reply = true }
    ∷ [])

storing-Steps : Steps hall before storing stored
unfolding exclusive_write
storing-Steps = later (makes 0 (flock 3 lock_ex) _ (exit_now 0) refl refl) (
    later (makes 0 (write 3 (codes "eva: hi\n")) _ (exit_now 0) refl refl) (
      later (makes 0 (kill 0 sigusr1) _ (exit_now 0) refl refl)
        (later (makes 0 (flock 3 lock_un) _ (exit_now 0) refl refl) (stop _))))

send_loop-multicast_example :
    let piece = take buf_size (codes "eva: hi\n") in
    (t : List Event) × (d : Group (Unit {0}) Sim) × Steps hall stored (by 1 t) d
    × (written 4 t ≡ message_for piece)
    × (d.processes 1 ≡ send_loop 1 4 3 (19 + length piece))
unfolding exclusive_write read_chatlog_send_client shared_read unlock_after_read no_nul snprintf_s
send_loop-multicast_example =
    send_loop-multicast hall 1 4 3 (λ s. s.log) (λ s. s.at) hall-ReadsLog hall-appends before stored
      storing 1 refl storing-Steps refl refl (λ e. cc) refl refl

-- Process 1 has just read "bob: hello".
abbrev late : ℕ → Prog (Unit {0})
late zero = exclusive_write 3 (codes "eva: hi\n") >>= λ b. return tt
late (suc n) = send_read 4 8 1 (some (codes "bob: hello\n")) >>= send_loop 2 4 3

-- The accept loop, followed into the child process of a connection.
accept_loop-IsHarmless_example :
    let t = (run sim (accept_loop 1 serving) start).trace in
    (disposition sigterm term_handler t ≡ term_handler) × IsHarmless (disposition sigusr1 sig_ign t)
accept_loop-IsHarmless_example =
    accept_loop-IsHarmless sim 1 serving start (run sim (accept_loop 1 serving) start).trace []
      (sym (append-nil (run sim (accept_loop 1 serving) start).trace))

abbrev carrying : Sim
carrying = record start { input = (codes "eva: hi" ++ 0 ∷ []) ∷ [] }

read_chatlog_send_client-shown_example :
    shown_in 2 (run sim (print_messages_from_server 2 8 12) carrying).trace ≡ codes "eva: hi\n"
unfolding exclusive_write read_chatlog_send_client shared_read unlock_after_read no_nul snprintf_s
    handle_read_socket receive_round receive_into receive_read print_messages_from_server
    fetch_and_show show_message wrap_text fetch_message c_str
read_chatlog_send_client-shown_example =
    read_chatlog_send_client-shown hall sim sim 1 4 3 5 8 2 12 (λ s. s.log) (λ s. s.at)
      hall-ReadsLog hall-appends before stored storing 1 carrying carrying
      (record { addr = 1; junk = [] }) b'e' (codes "va: hi") storing-Steps refl refl (omega arith)
      refl refl refl refl refl refl
