-- ===== src/ClientRequest/Room.antt =====
-- The receiving processes of all clients at once, against a chat room: a sequence of messages, each
-- of one client.
use papaya_chat.Posix.Together.Log.{together-log}
use papaya_chat.Base.{
  ℕ, ◌≡◌, refl, sym, ap, subst, ◌∙◌, List, [], ◌∷◌, ◌++◌, Bytes, ◌==◌, if◌then◌else◌, inl, inr,
  Bool-cases,
}
use papaya_chat.Posix.{Call, Reply, Prog, ends, exit_now, run}
use papaya_chat.Posix.Monitor.{written, taken, given}
use papaya_chat.Posix.Together.{Shared, By, together, local, all_events, together-ended, alone}
use papaya_chat.ClientRequest.{receive_messages}
use papaya_chat.ClientRequest.Pieces.{piece, pieces, Copies, receive_messages-Copies}

pub record Message : Type 0 where
  pub author : ℕ
  pub text : Bytes

-- One message for each write(2) to the chat log that took bytes.
abbrev pub message_of : ℕ → Bytes → List Message
message_of author [] = []
message_of author (b ∷ bytes) = record { author = author; text = b ∷ bytes } ∷ []

abbrev pub room : ℕ → List By → List Message
room fd [] = []
room fd (b ∷ history) = message_of b.who (taken fd b.event.asked b.event.reply) ++ room fd history

abbrev pub texts : List Message → Bytes
texts [] = []
texts (m ∷ ms) = m.text ++ texts ms

abbrev pub messages_by : ℕ → List Message → List Message
messages_by i [] = []
messages_by i (m ∷ ms) = if i == m.author then m ∷ messages_by i ms else messages_by i ms

texts-message_of :
    (i : ℕ) (bytes : Bytes) (ms : List Message)
    → texts (message_of i bytes ++ ms) ≡ bytes ++ texts ms
texts-message_of i [] ms = refl
texts-message_of i (b ∷ bytes) ms = refl

texts-room :
    (fd : ℕ) (history : List By) → texts (room fd history) ≡ written fd (all_events history)
texts-room fd [] = refl
texts-room fd (b ∷ history) =
    texts-message_of b.who (taken fd b.event.asked b.event.reply) (room fd history)
    ∙ ap (λ l. taken fd b.event.asked b.event.reply ++ l) (texts-room fd history)

-- The text of each message.
abbrev pub each_text : List Message → List Bytes
each_text [] = []
each_text (m ∷ ms) = m.text ∷ each_text ms

messages_by-message_of :
    (i author : ℕ) (bytes : Bytes) (ms : List Message)
    → each_text (messages_by i (message_of author bytes ++ ms))
      ≡ (if i == author then piece bytes else []) ++ each_text (messages_by i ms)
messages_by-message_of i author [] ms = elim (Bool-cases (i == author)) [
  | inl e ↦ rw e refl
  | inr e ↦ rw e refl
]
messages_by-message_of i author (c ∷ bytes) ms = elim (Bool-cases (i == author)) [
  | inl e ↦ rw e refl
  | inr e ↦ rw e refl
]

pieces-local :
    (moved : (c : Call) → Reply c → Bytes) (i : ℕ) (b : By) (history : List By)
    → pieces moved (local i (b ∷ history))
      ≡ (if i == b.who then piece (moved b.event.asked b.event.reply) else [])
        ++ pieces moved (local i history)
pieces-local moved i b history = elim (Bool-cases (i == b.who)) [
  | inl e ↦ rw e refl
  | inr e ↦ rw e refl
]

each_text-messages_by :
    (fd i : ℕ) (history : List By)
    → each_text (messages_by i (room fd history)) ≡ pieces (taken fd) (local i history)
each_text-messages_by fd i [] = refl
each_text-messages_by fd i (b ∷ history) =
    let bytes = taken fd b.event.asked b.event.reply in
    messages_by-message_of i b.who bytes (room fd history)
    ∙ ap (λ l. (if i == b.who then piece bytes else []) ++ l) (each_text-messages_by fd i history)
    ∙ sym (pieces-local (taken fd) i b history)

-- On a kernel where write(2) appends to the chat log what it takes and nothing else changes the
-- file, and whatever the schedule of the processes and the other replies: the chat log is what it was
-- and then the messages of the room in their order. The messages of a client whose receiving process
-- has ended with EXIT_SUCCESS are, one by one, what its calls of read(2) gave from this client: each
-- such piece stands in the chat log as a whole, with nothing of another client inside, and none is
-- missing, doubled, joined to the next or out of order.
pub receive_messages-room :
    {S : Type 0} (k : Shared S) (chatlog_fd : ℕ) (log : S → Bytes)
    → ((i : ℕ) (c : Call) (s : S)
        → let (r, s') = k.answer i c s in log s' ≡ log s ++ taken chatlog_fd c r)
    → (schedule : List ℕ) (processes : ℕ → Prog (Unit {0})) (s : S)
      (i rounds client_fd child_pid : ℕ)
    → processes i ≡ receive_messages rounds client_fd chatlog_fd child_pid
    → let r = together k schedule processes s in
      r.processes i ≡ ends (exit_now 0)
      → (log r.final ≡ log s ++ texts (room chatlog_fd r.history))
        × (each_text (messages_by i (room chatlog_fd r.history))
            ≡ pieces (given client_fd) (local i r.history))
receive_messages-room k chatlog_fd log appends schedule processes s i rounds client_fd child_pid
      role ended =
    let r = together k schedule processes s in
    let copied =
      together-ended k schedule processes s i (exit_now 0) (Copies client_fd chatlog_fd)
        (λ replies.
          subst
            (λ p.
              let x = run (alone k i) p (replies, s) in
              Copies client_fd chatlog_fd x.outcome x.trace)
            (sym role)
            (receive_messages-Copies (alone k i) client_fd chatlog_fd child_pid rounds
              (replies, s)))
        ended in
    (
      together-log k chatlog_fd log appends schedule processes s
          ∙ ap (λ l. log s ++ l) (sym (texts-room chatlog_fd r.history)),
      each_text-messages_by chatlog_fd i r.history ∙ copied,
    )
