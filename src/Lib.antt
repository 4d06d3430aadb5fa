-- ===== src/Lib.antt =====
-- papayaChat: the server of a group chat, and the processes of its client.
--
-- The server is a daemon. It forks a child process for each connection; the child authenticates
-- the client with a key and then forks again. The one process reads the client's messages and
-- appends them to the chat log, a file that all clients share, and signals SIGUSR1 to the group;
-- the other sends the client the last lines of the chat log and then, at each signal, what is new.
-- On the client's side two processes pass bytes between the socket and two pipes, and a third one,
-- the front end, reads keys and shows messages on a screen of ncurses.
--
-- A C function that makes system calls is a program tree (`Prog`), a node for each call. What the
-- kernel and the C allocator reply is not part of the repository: it is the parameter `Kernel`, a
-- function from calls to replies over a state of its own. `run` gives the trace of the calls with
-- their replies and the outcome: the function returned, the process ended, or it still runs.
-- Nothing is assumed of the kernel but what a theorem names; `ChatLog.Transfer.ReadsLog` states that
-- lseek and read work on one file as POSIX documents, while nobody else changes it, and
-- `Screen.Window.LineWindow` what ncurses does to one line of a window.
-- `Posix.Together` runs several processes by a schedule of their calls under one kernel; what one of
-- them does there is a run of it alone, with the replies that it was given. `Posix.Group` is a step
-- relation on the processes of one group: there pause(2) waits, and SIGUSR1 to the group wakes every
-- process that waits at that time and no other, and SIGTERM ends a process, as POSIX documents them
-- for handlers that return and that do not. Steps carry the list of the calls, each with the process
-- that made it.
--
-- Each file models the C file of its first line:
--   Posix/        the calls, the trees and their runs; Monitor reads off a trace which blocks,
--                 streams, sockets and locks are held and which bytes moved; Runs: composition;
--                 Together: several processes; Group: with waiting and signals; Disposition:
--                 which handlers a process has installed
--   CString/      the functions of string.h and stdio.h that the code uses, over lists of bytes
--   Config        CONFIG.h
--   ConfigParser/ configParser.c: `parse_config_file` is parseConfigFile, `parse_line` parseLine;
--                 Lines: how long its lines are
--   ChatLog/      file_locking.c: `exclusive_write`, `shared_read`,
--                 `messages_from_first_client_connection` are the functions of these names
--   ClientRequest/ clientRequest.c: `handle_request`, `receive_messages`, `send_new_messages`,
--                 `read_chatlog_send_client`, `kill_child`; Multicast, LostSignal, Gone and
--                 Orphans: the signals between the receiving and the sending processes; Pieces
--                 and Room: messages as pieces of the chat log; Leak: a NUL in the chat log
--   Server/       concurrent_server.c: `main`, `child` (the child process of the accept loop),
--                 `auth_client`; configure_syslog.c
--   Sockets/      inet_sockets.c: `client_connect`, `inet_passive_socket` and their callers
--   Daemon/       daemonCreation.c: `daemon_creation`
--   Signals       signalHandling.c; errno is the argument and the result of the handler of SIGCHLD,
--                 and waitpid(2) leaves a value of its own in it
--   Errors/       error_handling.c
--   Messages/     handleMessages.c
--   FrontEnd/     frontEnd.c: `get_config_values`, `send_auth_key`
--   Screen/       frontEnd.c: the windows (Layout), `print_messages_from_server`, `handle_newline`,
--                 `handle_backspace`, `check_max_message_length`, and `key_loop`, the loop of main;
--                 Editor is the line editor that it is compared with
--   Client/       frontEnd.c: `main`
--   Delivery/     the way of a message through the front end, the relay and the server into the
--                 chat log, and (Back) from there onto another user's screen
--   TermHandler   termHandlerAsyncSafe.c
--   Profiling/    profiling/C_Server/C_Server.c and signalHandling.c
--   Tests/        runs on a concrete kernel
-- A function that the C code writes as one body is several definitions here, one for each place
-- where it goes on after a reply.
--
-- Bytes are natural numbers, of which only comparisons with constants matter. Results of -1 and
-- null pointers are `none` and `false`. A loop without a bound (the sender, the receiver, the
-- relays, the accept loops, the key loop) takes a number of rounds, after which the outcome is
-- `running`; theorems hold for every number, or say how many rounds are enough. The parser's loop
-- takes one round more than the stream has bytes: enough, since each round but the last reads at
-- least one. A run follows one process: at fork(2) the kernel's reply says which. Offsets are
-- natural numbers without a bound.
--
-- Keys of the front end are characters, KEY_DOWN and the backspace; other function keys are left
-- out, and so is the colour of the text.
--
-- Not modelled: the Go programs, the scripts, and the arguments of messages to the system log. The
-- copies of error_handling.c and inet_sockets.c in profiling/C_Server are not modelled a second
-- time: they are the same text but for the address family in one function (Profiling/Sockets).
-- Where the code writes past a block (a key of 128 characters with its NUL) the model has the value
-- that was parsed, and does not follow the damage.
mod Base
pub mod Posix
pub mod Config
pub mod CString
pub mod ConfigParser
pub mod ChatLog
pub mod Signals
pub mod ClientRequest
pub mod Server
pub mod Sockets
pub mod Daemon
pub mod Errors
pub mod Messages
pub mod FrontEnd
pub mod Screen
pub mod Client
pub mod Delivery
pub mod Tests
pub mod TermHandler
pub mod Profiling
