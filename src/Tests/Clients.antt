-- ===== src/Tests/Clients.antt =====
-- The theorems on the processes of the server and of the client that have hypotheses, applied.
use papaya_chat.ChatLog.Transfer.{ReadsLog}
use papaya_chat.ConfigParser.Lines.{longest_line}
use papaya_chat.ClientRequest.Failures.{read_chatlog_send_client_total}
use papaya_chat.ChatLog.Failures.{some_fails}
use papaya_chat.Base.{
  some, ◌++◌, ◌⊎◌, false, codes, arith, List, ◌+◌, ◌≡◌, ◌≢◌, refl, [], ◌∷◌, true, Bytes, replicate,
  inr, length, take, drop,
}
use papaya_chat.Config.{key_length, buf_size}
use papaya_chat.CString.{snprintf_s}
use papaya_chat.CString.Words.{all_graphic, same}
use papaya_chat.Posix.{
  malloc, Kernel, fopen, Reply, Call, after, fork, in_child, run, returned, ended, exit_now,
}
use papaya_chat.Posix.Monitor.{sockets, written, heap}
use papaya_chat.ChatLog.{shared_read, unlock_after_read}
use papaya_chat.ClientRequest.{
  send_string, send_read, handle_request, send_new_messages, send_loop, receive_messages,
  read_chatlog_send_client,
}
use papaya_chat.ClientRequest.Receive.{Closes, effect, receive_messages-Closes}
use papaya_chat.ClientRequest.Message.{message_for, no_nul}
use papaya_chat.ClientRequest.Leak.{read_chatlog_send_client-leaks}
use papaya_chat.ClientRequest.Session.{Covers, messages, send_loop-Sent}
use papaya_chat.ClientRequest.Fallthrough.{handle_request-send_new_messages}
use papaya_chat.ClientRequest.Ends.{receive_messages_ends}
use papaya_chat.Server.{Serving, auth_client, child, accept_loop}
use papaya_chat.Server.Connections.{HoldsNone, accept_loop-HoldsNone}
use papaya_chat.Server.Auth.{auth_client-same, auth_client_short, auth_client_closed}
use papaya_chat.Server.Accept.{child-written}
use papaya_chat.FrontEnd.{Strings, get_config_values, send_auth_key}
use papaya_chat.FrontEnd.Sizes.{Gives, FitBlocks, get_config_values-Gives}
use papaya_chat.FrontEnd.Handshake.{send_auth_key-auth_client}
use papaya_chat.Messages.{handle_send_socket, handle_read_socket}
use papaya_chat.Messages.Relay.{Relays, handle_send_socket-Relays, handle_read_socket-Relays}
use papaya_chat.Tests.Sim.{
  reply_of, sim-Grows, Sim, sim, parent_sim, parent_sim-ServesQueue, sim-ReadsLog,
}
use papaya_chat.Tests.Logs.{start}

abbrev pub serving : Serving
serving = record { listen_fd = 5; chatlog_fd = 3; key = codes "k"; key_addr = 1 }

receive_messages-Closes_example :
    let r = run sim (receive_messages 5 4 3 77) start in
    Closes r.outcome (effect sim 4 3 77 r.trace)
receive_messages-Closes_example = receive_messages-Closes sim 4 3 77 5 start

read_chatlog_send_client_total_example :
    let piece = take buf_size (drop 8 start.log) in
    let r = run sim (read_chatlog_send_client 4 3 8) start in
    ((some_fails false r.trace ≡ false)
      × (r.outcome ≡ returned (8 + length piece))
      × (written 4 r.trace ≡ message_for piece))
    ⊎ ((some_fails false r.trace ≡ true) × (r.outcome ≡ ended (exit_now 1)))
unfolding no_nul
read_chatlog_send_client_total_example =
    read_chatlog_send_client_total sim 4 3 (λ s. s.log) (λ s. s.at) sim-ReadsLog start 8 refl

-- Every block held the same bytes before.
abbrev dirty_reply_of : (c : Call) → Sim → Reply c × Sim
dirty_reply_of (malloc n) s = (some (record { addr = 1; junk = codes "secret" }), s)
dirty_reply_of c s = reply_of c s

abbrev dirty : Kernel Sim
dirty = record { answer = dirty_reply_of }

dirty-ReadsLog : ReadsLog dirty 3 (λ s. s.log) (λ s. s.at)
dirty-ReadsLog = record {
  end_is = λ s n e. ground arith;
  moves = λ s o e. refl;
  reads = λ s n bs e. ground arith;
  keeps_lock = λ s. refl;
  keeps_end = λ s. refl;
  keeps_set = λ s o. refl;
  keeps_malloc = λ s n. (refl, refl);
}

-- "a", a NUL, and "bc".
abbrev nul_in_log : Sim
nul_in_log = record start { log = codes "a" ++ 0 ∷ codes "bc" }

read_chatlog_send_client-leaks_example :
    let r = run dirty (read_chatlog_send_client 4 3 0) nul_in_log in
    (r.outcome ≡ returned 4) × (written 4 r.trace ≡ codes "a" ++ 0 ∷ codes "cr")
unfolding no_nul read_chatlog_send_client shared_read unlock_after_read send_read send_string
    snprintf_s
read_chatlog_send_client-leaks_example =
    read_chatlog_send_client-leaks dirty 4 (λ n. codes "secret") (λ s n b e. ground arith) 3
      (λ s. s.log) (λ s. s.at) dirty-ReadsLog nul_in_log 0 (codes "a") (codes "bc") refl refl refl

abbrev key : Bytes
key = replicate key_length b'k'

-- The client sends the key.
abbrev knocking : Sim
knocking = record start { input = key ∷ [] }

auth_client-same_example :
    let r = run sim (auth_client 4 key) knocking in
    (r.outcome ≡ returned (same key key)) × (heap [] r.trace ≡ [])
unfolding all_graphic
auth_client-same_example =
    auth_client-same sim knocking 4 (record { addr = 1; junk = [] }) refl refl key key refl refl
      refl refl

-- The client sends one byte, and the block holds the rest of the key from before.
abbrev stale : Sim
stale = record start { input = codes "a" ∷ []; junk = codes "xyz" }

auth_client_short_example : (run sim (auth_client 4 (codes "ayz")) stale).outcome ≡ returned true
auth_client_short_example =
    auth_client_short sim stale 4 (record { addr = 1; junk = codes "xyz" }) refl refl b'a' []
      (codes "yz") refl refl

abbrev leaving : Sim
leaving = record start { input = [] }

child-written_example :
    (written 3 (run sim (child 5 5 4 3 key 1) leaving).trace ≡ [])
    × ((run sim (child 5 5 4 3 key 1) leaving).outcome ≢ returned tt)
child-written_example =
    child-written sim 3 5 5 4 3 1 key leaving
      λ e. cc (e, auth_client_closed sim leaving 4 key refl (inr refl))

handle_send_socket-Relays_example :
    let r = run sim (handle_send_socket 3 4 5) start in
    Relays 5 4 r.outcome r.trace × (r.outcome ≢ returned tt)
handle_send_socket-Relays_example = handle_send_socket-Relays sim 4 5 3 start

handle_read_socket-Relays_example :
    let r = run sim (handle_read_socket 3 4 5) start in
    Relays 4 5 r.outcome r.trace × (r.outcome ≢ returned tt)
handle_read_socket-Relays_example = handle_read_socket-Relays sim 4 5 3 start

-- The parent: fork(2) gives the pid of a child.
accept_loop-HoldsNone_example :
    let r = run parent_sim (accept_loop 2 serving) start in HoldsNone r.outcome (sockets [] r.trace)
accept_loop-HoldsNone_example = accept_loop-HoldsNone parent_sim (λ s e. cc) 2 serving start

send_loop-Sent_example :
    let r = run sim (send_loop 2 4 3 8) start in
    (pieces : List Bytes) × (written 4 r.trace ≡ messages pieces) × Covers pieces 8 (r.final).log
unfolding send_loop read_chatlog_send_client shared_read unlock_after_read snprintf_s no_nul
send_loop-Sent_example =
    send_loop-Sent sim (λ s. s.log) sim-Grows 4 3 (λ s. s.at) sim-ReadsLog 2 8 start refl refl

receive_messages_ends_example :
    (run parent_sim (receive_messages 2 4 3 77) start).outcome ≡ ended (exit_now 0)
receive_messages_ends_example =
    receive_messages_ends parent_sim 4 3 77 (λ s. s.input) parent_sim-ServesQueue 2 start
      (omega arith)

handle_request-send_new_messages_example :
    run sim (handle_request 3 4 3) start
    ≡ after (record { asked = fork; reply = in_child }) (run sim (send_new_messages 3 4 3) start)
handle_request-send_new_messages_example = handle_request-send_new_messages sim 4 3 3 start refl

send_auth_key-auth_client_example :
    (run sim (auth_client 4 key) knocking).outcome ≡ returned (same key key)
unfolding send_auth_key all_graphic
send_auth_key-auth_client_example =
    send_auth_key-auth_client sim start sim knocking 6 4 (record { addr = 1; junk = [] }) key key
      refl refl refl refl refl refl refl

abbrev empty : Strings
empty = record { username = []; port = []; host = []; key = [] }

-- Every file that is opened is this one.
abbrev with_file_reply_of : (c : Call) → Sim → Reply c × Sim
with_file_reply_of (fopen pathname) s = (
  some
      (record { handle = 8; content = codes "USERNAME ann\nPORT 7722\nHOST localhost\nKEY abc\n" }),
  s,
)
with_file_reply_of c s = reply_of c s

abbrev with_file : Kernel Sim
with_file = record { answer = with_file_reply_of }

get_config_values-Gives_example :
    Gives (FitBlocks key_length) (run with_file (get_config_values empty) start).outcome
unfolding longest_line
get_config_values-Gives_example =
    get_config_values-Gives with_file key_length (λ pathname s. inr (omega arith)) empty start
