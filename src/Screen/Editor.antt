-- ===== src/Screen/Editor.antt =====
-- The line editor that the keys of the front end make, without a screen.
use papaya_chat.Base.{
  codes, ℕ, ◌+◌, ◌-◌, ◌≡◌, List, [], ◌∷◌, ◌++◌, none, some, Bool, Bytes, length, take, ltb, leb,
  ◌==◌, ◌&&◌, ◌||◌, true, if◌then◌else◌,
}
use papaya_chat.Posix.{Key, character, key_down, key_backspace, Call, Reply, Event, curses, wgetch}

-- A character that has a column of its own.
abbrev pub is_printable : ℕ → Bool
is_printable c = leb b' ' c && ltb c 127

-- A key that has a meaning for the editor.
abbrev pub IsPlain : Key → Type 0
IsPlain (character c) = (c == b'\n' || is_printable c) ≡ true
IsPlain _ = Unit

abbrev pub AllPlain : List Key → Type 0
AllPlain [] = Unit
AllPlain (key ∷ ks) = IsPlain key × AllPlain ks

-- The line after a key: a character is added while there is room, a newline takes the line away.
abbrev pub line_after : ℕ → Bytes → Key → Bytes
line_after max line (character c) =
    if c == b'\n' then [] else (if ltb (length line + 1) max then line ++ c ∷ [] else line)
line_after max line key_backspace = take (length line - 1) line
line_after max line key_down = line

-- What a key sends.
abbrev pub sent_by : Bytes → Bytes → Key → Bytes
sent_by username line (character c) = if c == b'\n' then username ++ (line ++ codes "\n") else []
sent_by username line key_backspace = []
sent_by username line key_down = []

-- What a sequence of keys sends, from a line that was typed before.
abbrev pub sent_by_all : ℕ → Bytes → Bytes → List Key → Bytes
sent_by_all max username line [] = []
sent_by_all max username line (key ∷ keys) =
    sent_by username line key ++ sent_by_all max username (line_after max line key) keys

-- The keys that were read from a window.
abbrev pub pressed : ℕ → (c : Call) → Reply c → List Key
pressed w (curses (wgetch w')) (some key) = if w == w' then key ∷ [] else []
pressed w (curses (wgetch w')) none = []
pressed w _ r = []

abbrev pub keys : ℕ → List Event → List Key
keys w [] = []
keys w (e ∷ es) = pressed w e.asked e.reply ++ keys w es
