-- ===== src/Tests/Pipes.antt =====
-- The start of the client.
use papaya_chat.Base.{codes, ℕ, zero, suc, ◌≡◌, [], ◌∷◌, some, ◌==◌, if◌then◌else◌}
use papaya_chat.Posix.{Block, Kernel, Call, Reply, run, fork, pipe, Forked, in_child, in_parent}
use papaya_chat.Signals.{success}
use papaya_chat.Messages.{handle_read_socket, receive_round, receive_into, receive_read}
use papaya_chat.Client.{
  start_processes, send_pipe, first_child, receive_pipe, set_nonblock, second_child,
}
use papaya_chat.Client.Ends.{pipes}
use papaya_chat.Client.Pipes.{start_processes-Holds, no_pipes}
use papaya_chat.Tests.Sim.{Sim, reply_of}
use papaya_chat.Tests.Logs.{start}

-- The second child of the client: the first fork(2) is seen from the parent.
abbrev fork_reply : ℕ → Sim → Forked × Sim
fork_reply zero s = (in_child, s)
fork_reply (suc n) s = (in_parent 77, record s { children = n })

abbrev forking_reply_of : (c : Call) → Sim → Reply c × Sim
forking_reply_of fork s = fork_reply s.children s
forking_reply_of pipe s = (some (if s.children == 0 then (7, 8) else (5, 6)), s)
forking_reply_of c s = reply_of c s

abbrev forking : Kernel Sim
forking = record { answer = forking_reply_of }

abbrev name_block : Block
name_block = record { addr = 1; junk = [] }

start_processes-Holds_example :
    let s = record start { children = 1 } in
    (pipes no_pipes
      (run forking (start_processes 1 4 name_block (codes "eva: ") success) s).trace).open_ends
    ≡ 8 ∷ []
unfolding start_processes send_pipe first_child receive_pipe set_nonblock second_child
    handle_read_socket receive_round receive_into receive_read
start_processes-Holds_example =
    start_processes-Holds forking 1 4 name_block (codes "eva: ") success
      (record start { children = 1 })
