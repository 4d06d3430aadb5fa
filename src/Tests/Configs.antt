-- ===== src/Tests/Configs.antt =====
-- The theorems on the parser, the sockets, the daemon, signals and diagnostics, applied.
use papaya_chat.ConfigParser.Lines.{longest_line}
use papaya_chat.Base.{
  inr, codes, ℕ, ◌-◌, ◌≡◌, refl, List, [], ◌∷◌, ◌++◌, some, true, Bytes, arith, take,
}
use papaya_chat.CString.Words.{is_word, pair_line}
use papaya_chat.Posix.{run, returned}
use papaya_chat.Posix.Monitor.{heap, streams}
use papaya_chat.ConfigParser.{parse_config_file}
use papaya_chat.ConfigParser.FirstMatch.{
  Setting, print, first_match, AllSettings, parse_config_file-print,
}
use papaya_chat.ConfigParser.Bounds.{
  ReturnsFit, parse_config_file-ReturnsFit, parse_config_file-left_open,
}
use papaya_chat.Sockets.{client_connect, inet_passive_socket}
use papaya_chat.Sockets.Leaks.{Owns, RunOwns, client_connect-Owns, inet_passive_socket-RunOwns}
use papaya_chat.Posix.Monitor.{sockets}
use papaya_chat.Daemon.{daemon_creation, daemon_flag_no_chdir, max_fd, configure_daemon, close_from}
use papaya_chat.Daemon.Descriptors.{IsDaemonTable, table, daemon_creation-IsDaemonTable}
use papaya_chat.Errors.{output_text, error_text, error_buf_size}
use papaya_chat.Errors.Text.{output_text-take}
use papaya_chat.Signals.{catch_sigchld_handler, configure_signal_disposition}
use papaya_chat.Signals.Reaping.{catch_sigchld_handler_reaps}
use papaya_chat.Signals.Dispositions.{
  ReturnsConfigured, configure_signal_disposition-ReturnsConfigured,
}
use papaya_chat.Tests.Sim.{Sim, sim, parent_sim, parent_sim-Collects}
use papaya_chat.Tests.Logs.{start}

abbrev settings : List Setting
settings =
    record { name = codes "PORT"; value = codes "7781" }
    ∷ record { name = codes "HOST"; value = codes "localhost" }
    ∷ []

settings-AllSettings : AllSettings settings
unfolding is_word
settings-AllSettings = (
  record { name_word = refl; value_word = refl; fits = omega arith },
  (record { name_word = refl; value_word = refl; fits = omega arith }, tt),
)

abbrev configured : Sim
configured = record start { config = codes "PORT 7781\nHOST localhost\n" }

parse_config_file-print_example :
    (run sim (parse_config_file (codes "client.config") (codes "HOST") []) configured).outcome
    ≡ returned (first_match (codes "HOST") [] settings)
unfolding print pair_line is_word
parse_config_file-print_example =
    parse_config_file-print sim configured configured configured (codes "client.config")
      (codes "HOST") [] 9 (record { addr = 1; junk = [] }) settings refl settings-AllSettings refl
      refl

parse_config_file-ReturnsFit_example :
    ReturnsFit 128 []
      (run sim (parse_config_file (codes "client.config") (codes "HOST") []) configured).outcome
unfolding longest_line
parse_config_file-ReturnsFit_example =
    parse_config_file-ReturnsFit sim configured 128 (codes "client.config") (codes "HOST") []
      (inr (omega arith))

parse_config_file-left_open_example :
    let t =
      (run sim (parse_config_file (codes "client.config") (codes "HOST") []) configured).trace in
    (heap [] t ≡ []) × (streams [] t ≡ [])
parse_config_file-left_open_example =
    parse_config_file-left_open sim configured (codes "client.config") (codes "HOST") []

client_connect-Owns_example :
    let r = run sim (client_connect (some (codes "localhost")) (codes "7722") 1) start in
    Owns sim r.outcome (sockets [] r.trace)
client_connect-Owns_example =
    client_connect-Owns sim (some (codes "localhost")) (codes "7722") 1 start

inet_passive_socket-RunOwns_example :
    RunOwns sim [] (run sim (inet_passive_socket (codes "7722") 1 true 10) start)
inet_passive_socket-RunOwns_example = inet_passive_socket-RunOwns sim (codes "7722") 1 true 10 start

daemon_creation-IsDaemonTable_example :
    IsDaemonTable
      (max_fd (some 5))
      (table (λ fd. some "tty") (run sim (daemon_creation daemon_flag_no_chdir) start).trace)
unfolding daemon_creation configure_daemon close_from
daemon_creation-IsDaemonTable_example =
    daemon_creation-IsDaemonTable sim daemon_flag_no_chdir (some 5) (λ s. refl) refl refl start
      (λ fd. some "tty") refl

abbrev names : ℕ → Bytes
names err = codes "EINTR"

abbrev texts : ℕ → Bytes
texts err = codes "Interrupted system call"

output_text-take_example :
    output_text names 133 texts true 4 (codes "read")
    ≡ take (error_buf_size - 1) (
        codes "ERROR"
        ++ (error_text names 133 texts true 4 ++ (codes " " ++ (codes "read" ++ codes "\n"))))
output_text-take_example = output_text-take names 133 texts true 4 (codes "read")

catch_sigchld_handler_reaps_example :
    let r = run parent_sim (catch_sigchld_handler 3 4) start in
    (r.outcome ≡ returned 4) × (r.final.children ≡ 0)
catch_sigchld_handler_reaps_example =
    catch_sigchld_handler_reaps parent_sim (λ s. s.children) parent_sim-Collects 3 4 start
      (omega arith)

configure_signal_disposition-ReturnsConfigured_example :
    let r = run sim configure_signal_disposition start in ReturnsConfigured r.outcome r.trace
configure_signal_disposition-ReturnsConfigured_example =
    configure_signal_disposition-ReturnsConfigured sim start
