-- ===== src/Tests/Screens.antt =====
-- The front end on a window that a user types in.
use papaya_chat.Base.{
  codes, ℕ, suc, ◌+◌, ◌≡◌, refl, List, [], ◌∷◌, ◌++◌, Option, none, some, true, false, Bytes, take,
  drop, pos_part, ◌==◌, if◌then◌else◌, arith,
}
use papaya_chat.Posix.{
  write, returned, Kernel, Call, Reply, run, curses, CursesCall, CursesReply, character, Key,
  key_backspace, key_down, waddch, wmove, wdelch, wdeleteln, mvwinnstr, wgetch, getcurx,
}
use papaya_chat.Posix.Monitor.{written}
use papaya_chat.CString.{c_str}
use papaya_chat.ClientRequest.Message.{no_nul}
use papaya_chat.Messages.{send_message_to_pipe, fetch_message}
use papaya_chat.Screen.{
  Chat, key_loop, handle_key, handle_newline, take_line, read_line, append_line, send_line,
  clear_line, add_key, check_max_message_length, handle_backspace, fetch,
  print_messages_from_server, fetch_and_show, show_message, wrap_text,
}
use papaya_chat.Screen.Editor.{keys}
use papaya_chat.Screen.Works.{Works, succeeded, takes_key}
use papaya_chat.Screen.Typed.{key_loop-returned}
use papaya_chat.Screen.Session.{key_loop-sent_by_all}
use papaya_chat.Screen.Window.{LineWindow, touches}
use papaya_chat.Tests.Sim.{Sim, reply_of, on_screen}
use papaya_chat.Tests.Logs.{start}

-- Window 1 has a line of text; the keys that are typed come from a list.
pub record Typing : Type 0 where
  pub base : Sim
  pub text : Bytes
  pub column : ℕ
  pub typed : List Key

abbrev next_key : List Key → Typing → Option Key × Typing
next_key [] s = (none, s)
next_key (key ∷ rest) s = (some key, record s { typed = rest })

abbrev on_line : (q : CursesCall) → Typing → CursesReply q × Typing
on_line (waddch w (character c)) s =
    (tt, if 1 == w then record s { text = s.text ++ c ∷ []; column = s.column + 1 } else s)
on_line (wmove w y x) s = (true, if 1 == w then record s { column = pos_part x } else s)
on_line (wdelch w) s = (
  tt,
  if 1 == w then record s { text = take s.column s.text ++ drop (suc s.column) s.text } else s,
)
on_line (wdeleteln w) s = (true, if 1 == w then record s { text = [] } else s)
on_line (mvwinnstr w y x n) s = (some (take n s.text), s)
on_line (getcurx w) s = (some s.column, s)
on_line (wgetch w) s = next_key s.typed s
on_line q s = (on_screen q, s)

abbrev in_base : {A : Type 0} → A × Sim → Typing → A × Typing
in_base p s = (p.0, record s { base = p.1 })

abbrev typing_reply_of : (c : Call) → Typing → Reply c × Typing
typing_reply_of (curses q) s = on_line q s
typing_reply_of c s = in_base (reply_of c s.base) s

abbrev pub typing : Kernel Typing
typing = record { answer = typing_reply_of }

next_key-text :
    (ks : List Key) (s : Typing)
    → ((next_key ks s).1.text ≡ s.text) × ((next_key ks s).1.column ≡ s.column)
next_key-text [] s = (refl, refl)
next_key-text (key ∷ ks) s = (refl, refl)

typing-keeps :
    (s : Typing) (c : Call)
    → touches 1 c ≡ false
    → ((typing.answer c s).1.text ≡ s.text) × ((typing.answer c s).1.column ≡ s.column)
typing-keeps s (curses (waddch w (character c))) e = rw e (refl, refl)
typing-keeps s (curses (wmove w y x)) e = rw e (refl, refl)
typing-keeps s (curses (wdelch w)) e = rw e (refl, refl)
typing-keeps s (curses (wdeleteln w)) e = rw e (refl, refl)
typing-keeps s (curses (wgetch w)) e = next_key-text s.typed s
typing-keeps s (curses q) e = (refl, refl)
typing-keeps s c e = (refl, refl)

pub typing-LineWindow : LineWindow typing 1 80 (λ s. s.text) (λ s. s.column)
typing-LineWindow = record {
  columns = λ s. refl;
  at_column = λ s. refl;
  at_row = λ s. refl;
  moves = λ s x. (refl, refl);
  adds = λ s c plain at fits. (refl, refl);
  deletes = λ s. (refl, refl);
  reads = λ s n. (refl, refl);
  clears = λ s. refl;
  keeps = typing-keeps;
}

abbrev pub eva : Typing
eva = record {
  base = start;
  text = [];
  column = 0;
  typed =
      character b'h'
      ∷ character b'i'
      ∷ key_backspace
      ∷ character b'o'
      ∷ character b'\n'
      ∷ key_down
      ∷ [];
}

abbrev pub chat : Chat
chat = record {
  chat_window = 1;
  text_window = 2;
  send_fd = 7;
  receive_fd = 8;
  username = codes "eva: ";
  max_y = 12;
}

key_loop-sent_by_all_example :
    written 7 (run typing (key_loop 6 chat) eva).trace ≡ codes "eva: ho\n"
unfolding key_loop handle_key handle_newline take_line read_line append_line send_line clear_line
    send_message_to_pipe add_key check_max_message_length handle_backspace fetch
    print_messages_from_server fetch_and_show show_message wrap_text fetch_message c_str no_nul
key_loop-sent_by_all_example =
    key_loop-sent_by_all typing 80 chat (λ s. s.text) (λ s. s.column) typing-LineWindow
      (omega arith) refl 6 eva refl refl refl refl (refl, (refl, (tt, (refl, (refl, (tt, tt))))))

typing-succeeds_on_line :
    (q : CursesCall) (s : Typing) → succeeded (curses q) (typing.answer (curses q) s).0 ≡ true
typing-succeeds_on_line (wgetch w) s = refl
typing-succeeds_on_line q s = refl

typing-succeeds : (s : Typing) (c : Call) → succeeded c (typing.answer c s).0 ≡ true
typing-succeeds s (write fd bytes) = ground arith
typing-succeeds s (curses q) = typing-succeeds_on_line q s
typing-succeeds s c = refl

typing-keeps_typed :
    (s : Typing) (c : Call) → takes_key c ≡ false → (typing.answer c s).1.typed ≡ s.typed
typing-keeps_typed s (curses (waddch w (character c))) e = ground arith
typing-keeps_typed s (curses (wmove w y x)) e = ground arith
typing-keeps_typed s (curses (wdelch w)) e = ground arith
typing-keeps_typed s (curses (wdeleteln w)) e = ground arith
typing-keeps_typed s (curses (wgetch w)) e = cc
typing-keeps_typed s (curses q) e = refl
typing-keeps_typed s c e = refl

typing-Works : Works typing 1 (λ s. s.typed)
typing-Works = record {
  succeeds = typing-succeeds;
  next = λ s key rest e. rw e (refl, refl);
  keeps = typing-keeps_typed;
}

key_loop-returned_example :
    let r = run typing (key_loop 6 chat) eva in
    (r.outcome ≡ returned tt)
    × (keys 1 r.trace ≡ eva.typed)
    × (written 7 r.trace ≡ codes "eva: ho\n")
unfolding no_nul
key_loop-returned_example =
    key_loop-returned typing 80 chat (λ s. s.text) (λ s. s.column) (λ s. s.typed) typing-Works
      typing-LineWindow (omega arith) refl
      (character b'h' ∷ character b'i' ∷ key_backspace ∷ character b'o' ∷ character b'\n' ∷ []) 5
      eva (refl, (refl, (refl, (refl, (refl, tt))))) (refl, (refl, (tt, (refl, (refl, tt)))))
      (omega arith) refl refl refl refl
