-- ===== src/Tests/Profiles.antt =====
-- What the front end shows.
use papaya_chat.Base.{codes, ◌≡◌, refl, [], ◌∷◌, ◌++◌}
use papaya_chat.CString.{c_str}
use papaya_chat.Posix.{run}
use papaya_chat.ClientRequest.Message.{no_nul}
use papaya_chat.Messages.{fetch_message}
use papaya_chat.Screen.{print_messages_from_server, fetch_and_show, show_message, wrap_text}
use papaya_chat.Screen.Shown.{shown_in, print_messages_from_server-c_str}
use papaya_chat.Tests.Sim.{Sim, sim}
use papaya_chat.Tests.Logs.{start}

-- Two messages of the server come in one read.
abbrev coalesced : Sim
coalesced = record start { input = (codes "a: x" ++ 0 ∷ codes "b: y\n") ∷ [] }

print_messages_from_server-c_str_example :
    shown_in 2 (run sim (print_messages_from_server 2 8 12) coalesced).trace ≡ codes "a: x\n"
unfolding print_messages_from_server fetch_and_show show_message wrap_text fetch_message c_str
    no_nul
print_messages_from_server-c_str_example =
    print_messages_from_server-c_str sim 2 12 8 coalesced (record { addr = 1; junk = [] }) b'a'
      (codes ": x") (codes "b: y\n") refl refl refl refl
