-- ===== src/Tests/Runs.antt =====
-- The unit test of configParser.c, and the chat log of more than seven lines.
use papaya_chat.Base.{codes, ◌≡◌, refl, [], true, false}
use papaya_chat.CString.{
  fgets, c_str, sscanf_two, strncmp_eq, line_of, after_line, skip_space, word_of, after_word,
}
use papaya_chat.ConfigParser.{parse_config_file, parse_lines, parse_line}
use papaya_chat.ChatLog.{text_to_send}
use papaya_chat.Posix.{run, returned}
use papaya_chat.Tests.Sim.{Sim, sim}
use papaya_chat.Tests.Logs.{start}

-- tests/ut_configParser_golden_reference
abbrev golden : Sim
golden = record start { config = codes "PORT 7781\nHOST localhost\nUSERNAME max_mustermancito\n\n" }

golden_host :
    (run sim (parse_config_file (codes "golden") (codes "HOST") []) golden).outcome
    ≡ returned (record { success = true; return_value = codes "localhost" })
unfolding parse_config_file parse_lines parse_line fgets line_of after_line c_str sscanf_two
    skip_space word_of after_word strncmp_eq
golden_host = refl

golden_missing :
    (run sim (parse_config_file (codes "golden") (codes "KEY") []) golden).outcome
    ≡ returned (record { success = false; return_value = codes "max_mustermancito" })
unfolding parse_config_file parse_lines parse_line fgets line_of after_line c_str sscanf_two
    skip_space word_of after_word strncmp_eq
golden_missing = refl

last_seven : text_to_send (codes "1\n2\n3\n4\n5\n6\n7\n8\n9\n") ≡ codes "3\n4\n5\n6\n7\n8\n9\n"
unfolding text_to_send
last_seven = refl
