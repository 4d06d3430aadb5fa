-- ===== src/Tests/Ways.antt =====
-- The way of a message, and the start of the server.
use papaya_chat.Base.{codes, ◌≡◌, refl, [], ◌∷◌, true, false, arith}
use papaya_chat.CString.{c_str}
use papaya_chat.Posix.{Kernel, Call, Reply, run, listen}
use papaya_chat.Posix.Ready.{accepts_ready}
use papaya_chat.Server.{main}
use papaya_chat.Server.Start.{main-accepts_ready}
use papaya_chat.Posix.Monitor.{written}
use papaya_chat.ChatLog.{exclusive_write}
use papaya_chat.ClientRequest.{
  receive_messages, receive_loop, receive_round, receive_into, handle_read, kill_child,
}
use papaya_chat.ClientRequest.Message.{no_nul}
use papaya_chat.Messages.{
  send_message_to_pipe, fetch_message, handle_send_socket, send_round, send_into, send_read,
}
use papaya_chat.Screen.{
  key_loop, handle_key, handle_newline, take_line, read_line, append_line, send_line, clear_line,
  add_key, check_max_message_length, handle_backspace, fetch, print_messages_from_server,
  fetch_and_show, show_message, wrap_text,
}
use papaya_chat.Delivery.{key_loop-receive_messages}
use papaya_chat.Tests.Sim.{Sim, sim, reply_of}
use papaya_chat.Tests.Logs.{start}
use papaya_chat.Tests.Screens.{typing, typing-LineWindow, eva, chat}

abbrev passing : Sim
passing = record start { input = codes "eva: ho\n" ∷ [] }

key_loop-receive_messages_example :
    written 3 (run sim (receive_messages 2 4 3 77) passing).trace ≡ codes "eva: ho\n"
unfolding key_loop handle_key handle_newline take_line read_line append_line send_line clear_line
    send_message_to_pipe add_key check_max_message_length handle_backspace fetch
    print_messages_from_server fetch_and_show show_message wrap_text fetch_message c_str no_nul
    receive_messages receive_loop receive_round receive_into handle_read exclusive_write kill_child
    handle_send_socket send_round send_into send_read
key_loop-receive_messages_example =
    key_loop-receive_messages typing sim sim chat 6 5 4 3 77 80 (λ s. s.text) (λ s. s.column)
      typing-LineWindow (omega arith) refl 6 1 2 eva passing passing refl refl refl refl refl refl
      refl refl (refl, (refl, (tt, (refl, (refl, (tt, tt))))))

-- A kernel on which the server comes to listen.
abbrev listening_reply_of : (c : Call) → Sim → Reply c × Sim
listening_reply_of (listen fd n) s = (true, s)
listening_reply_of c s = reply_of c s

abbrev listening : Kernel Sim
listening = record { answer = listening_reply_of }

main-accepts_ready_example :
    accepts_ready false false
      (run listening (main 4) (record start { config = codes "PORT 7722\nKEY k\n" })).trace
    ≡ true
main-accepts_ready_example =
    main-accepts_ready listening (record start { config = codes "PORT 7722\nKEY k\n" }) 4
