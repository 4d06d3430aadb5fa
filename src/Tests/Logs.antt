-- ===== src/Tests/Logs.antt =====
-- The theorems on the chat log that have hypotheses, applied where the hypotheses hold.
use papaya_chat.ChatLog.Failures.{some_fails, messages_from_first_client_connection_total}
use papaya_chat.Base.{false, ◌⊎◌, some, none, codes, ◌-◌, ◌≡◌, refl, [], ◌∷◌, true, length, drop}
use papaya_chat.Posix.{returned, run, lock_un}
use papaya_chat.Posix.Monitor.{written, lock_of}
use papaya_chat.ChatLog.{messages_from_first_client_connection, text_to_send}
use papaya_chat.ChatLog.Tail.{last_lines, text_to_send-last_lines}
use papaya_chat.ChatLog.Locks.{messages_from_first_client_connection-lock_un}
use papaya_chat.Tests.Sim.{Sim, sim, sim-ReadsLog}

abbrev pub start : Sim
start = record {
  log = codes "ana: hi\nbob: hello\n";
  at = 0;
  input = codes "eva: good day\n" ∷ [];
  config = codes "PORT 7722\n";
  junk = [];
  kills = true;
  children = 2;
}

messages_from_first_client_connection_total_example :
    let r = run sim (messages_from_first_client_connection 3 4) start in
    ((some_fails false r.trace ≡ false)
      × (r.outcome ≡ returned (some (length start.log)))
      × (written 4 r.trace ≡ last_lines 7 (drop (length start.log - 1050) start.log)))
    ⊎ ((some_fails false r.trace ≡ true) × (r.outcome ≡ returned none))
messages_from_first_client_connection_total_example =
    messages_from_first_client_connection_total sim 3 (λ s. s.log) (λ s. s.at) sim-ReadsLog start 4

text_to_send-last_lines_example :
    text_to_send (codes "ana: hi\n") ≡ last_lines 7 (codes "ana: hi\n")
text_to_send-last_lines_example = text_to_send-last_lines (codes "ana: hi\n")

messages_from_first_client_connection-lock_un_example :
    lock_of 3 lock_un (run sim (messages_from_first_client_connection 3 4) start).trace ≡ lock_un
messages_from_first_client_connection-lock_un_example =
    messages_from_first_client_connection-lock_un sim 3 4 (λ s. refl) start
