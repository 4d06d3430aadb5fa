-- ===== src/TermHandler.antt =====
-- termHandlerAsyncSafe.c: the program that replaces the server at SIGTERM.
use papaya_chat.Posix.{Prog, ends, sys, ◌>>◌, exit, syslog, log_debug}
use papaya_chat.Server.{configure_syslog}

unfoldable pub main : Prog (Unit {0})
main = do
  configure_syslog "papayaChat(parent)"
  sys (syslog log_debug "SIGTERM signal received. Killing server backend [parent process]!")
  ends (exit 0)
