-- ===== src/ChatLog/Failures.antt =====
-- file_locking.c when a call fails.
use papaya_chat.Base.{
  if◌then◌else◌, ℕ, zero, suc, ◌≡◌, refl, List, [], ◌∷◌, Option, none, some, Bool, true, false, not,
  ◌||◌, Bytes, length, ◌⊎◌, inl, inr, drop, ◌-◌, ◌∙◌, ap,
}
use papaya_chat.Posix.{
  Exit, Prog, return, ends, spent, call, Outcome, ◌>>=◌, Kernel, run, Event, Call, Reply, returned,
  Block, malloc, flock, lseek_set, lseek_end, read, write,
}
use papaya_chat.Posix.Monitor.{written}
use papaya_chat.ChatLog.Tail.{last_lines}
use papaya_chat.ChatLog.Transfer.{ReadsLog, messages_from_first_client_connection-Sends}
use papaya_chat.ChatLog.{
  wrote, shared_read, unlock_after_read, unlock_and_return, text_to_send, send_text, read_text,
  from_last_byte, messages_from_first_client_connection, lines_send_back_to_client,
  max_characters_back_client,
}

-- Did the call fail, or write(2) take fewer bytes than it was given?
abbrev pub fails : (c : Call) → Reply c → Bool
fails (flock fd op) r = not r
fails (lseek_end fd) none = true
fails (lseek_end fd) (some n) = false
fails (lseek_set fd offset) r = not r
fails (read fd n) none = true
fails (read fd n) (some bytes) = false
fails (write fd bytes) r = not (wrote bytes r)
fails (malloc n) none = true
fails (malloc n) (some block) = false
fails c r = false

abbrev pub some_fails : Bool → List Event → Bool
some_fails failed [] = failed
some_fails failed (e ∷ es) = some_fails (fails e.asked e.reply || failed) es

-- A program that comes to an end, and ends the process only after a call has failed; `ok` is what
-- holds where it returns, and `end` how it ends the process.
abbrev pub Strict : {A : Type 0} → (Bool → A → Type 0) → (Exit → Type 0) → Bool → Prog A → Type 0
Strict ok end failed (return a) = ok failed a
Strict ok end failed (ends x) = (failed ≡ true) × end x
Strict ok end failed spent = ⊥
Strict ok end failed (call c f) = (r : Reply c) → Strict ok end (fails c r || failed) (f r)

abbrev pub Never : Exit → Type 0
Never x = ⊥

pub Strict-bind :
    {A B : Type 0} (ok : Bool → A → Type 0) (ok' : Bool → B → Type 0) (end : Exit → Type 0)
    (m : Prog A) (f : A → Prog B) (failed : Bool)
    → Strict ok Never failed m
    → ((failed' : Bool) (a : A) → ok failed' a → Strict ok' end failed' (f a))
    → Strict ok' end failed (m >>= f)
Strict-bind ok ok' end (return a) f failed h g = g failed a h
Strict-bind ok ok' end (ends x) f failed h g = absurd h.1
Strict-bind ok ok' end spent f failed h g = absurd h
Strict-bind ok ok' end (call c m) f failed h g =
    λ r. Strict-bind ok ok' end (m r) f (fails c r || failed) (h r) g

-- The result is -1 if and only if a call has failed.
abbrev pub Told : {A : Type 0} → Bool → Option A → Type 0
Told failed none = failed ≡ true
Told failed (some a) = failed ≡ false

unlock_after_read-Strict :
    (fd : ℕ) (o : Option Bytes) (failed : Bool)
    → Told failed o
    → Strict Told Never failed (unlock_after_read fd o)
unfolding unlock_after_read
unlock_after_read-Strict fd none failed h = h
unlock_after_read-Strict fd (some bytes) failed h = elim [ true ↦ h | false ↦ refl ]

pub shared_read-Strict : (fd size offset : ℕ) → Strict Told Never false (shared_read fd size offset)
unfolding shared_read
shared_read-Strict fd size offset = elim [
  | true ↦ elim [
    | true ↦ elim [
      | none ↦ unlock_after_read-Strict fd none true refl
      | some bytes ↦ unlock_after_read-Strict fd (some bytes) false refl
    ]
    | false ↦ refl
  ]
  | false ↦ refl
]

unlock_and_return-Strict :
    (fd : ℕ) (o : Option ℕ) (failed : Bool)
    → Told failed o
    → Strict Told Never failed (unlock_and_return fd o)
unfolding unlock_and_return
unlock_and_return-Strict fd o failed h = elim [ true ↦ h | false ↦ refl ]

if_not-Strict :
    {A : Type 0} (b : Bool) (p q : Prog (Option A))
    → Strict Told Never true p
    → Strict Told Never false q
    → Strict Told Never (not b || false) (if not b then p else q)
if_not-Strict true p q h g = g
if_not-Strict false p q h g = h

module _ (fd client_fd last_byte : ℕ) where
  send_text-Strict :
      (block : ℕ) (o : Option Bytes) (failed : Bool)
      → Told failed o
      → Strict Told Never failed (send_text fd client_fd last_byte block o)
  unfolding send_text
  send_text-Strict block none failed h = λ r. unlock_and_return-Strict fd none failed h
  send_text-Strict block (some bytes) failed h = λ sent r. rw h (
      if_not-Strict (wrote (text_to_send bytes) sent) _ _
        (unlock_and_return-Strict fd none true refl) (unlock_and_return-Strict fd _ false refl))

  read_text-Strict :
      (o : Option Block) (failed : Bool)
      → Told failed o
      → Strict Told Never failed (read_text fd client_fd last_byte o)
  unfolding read_text
  read_text-Strict none failed h = unlock_and_return-Strict fd none failed h
  read_text-Strict (some block) failed h = elim [
    | none ↦ send_text-Strict block.addr none true refl
    | some bytes ↦ send_text-Strict block.addr (some bytes) failed h
  ]

from_last_byte-Strict :
    (fd client_fd : ℕ) (o : Option ℕ) (failed : Bool)
    → Told failed o
    → Strict Told Never failed (from_last_byte fd client_fd o)
unfolding from_last_byte
from_last_byte-Strict fd client_fd none failed h = unlock_and_return-Strict fd none failed h
from_last_byte-Strict fd client_fd (some zero) failed h =
    unlock_and_return-Strict fd (some 0) failed h
from_last_byte-Strict fd client_fd (some (suc last_byte)) failed h = elim [
  | true ↦ elim [
    | none ↦ read_text-Strict fd client_fd last_byte none true refl
    | some block ↦ read_text-Strict fd client_fd last_byte (some block) failed h
  ]
  | false ↦ unlock_and_return-Strict fd none true refl
]

messages_from_first_client_connection-Strict :
    (fd client_fd : ℕ)
    → Strict Told Never false (messages_from_first_client_connection fd client_fd)
unfolding messages_from_first_client_connection
messages_from_first_client_connection-Strict fd client_fd = elim [
  | true ↦ elim [
    | none ↦ from_last_byte-Strict fd client_fd none true refl
    | some n ↦ from_last_byte-Strict fd client_fd (some n) false refl
  ]
  | false ↦ refl
]

-- How a run comes out that gives a result if and only if no call fails, and -1 otherwise.
data Answers {A : Type 0} : Bool → Outcome (Option A) → Type 0 where
  gives : (a : A) → Answers false (returned (some a))
  denies : Answers true (returned none)

run-Answers :
    {A S : Type 0} (k : Kernel S) (p : Prog (Option A)) (s : S) (failed : Bool)
    → Strict Told Never failed p
    → let r = run k p s in Answers (some_fails failed r.trace) r.outcome
run-Answers k (return none) s failed h = rw h denies
run-Answers k (return (some a)) s failed h = rw h (gives a)
run-Answers k (ends x) s failed h = absurd h.1
run-Answers k spent s failed h = absurd h
run-Answers k (call c f) s failed h =
    let (r, s') = k.answer c s in run-Answers k (f r) s' (fails c r || failed) (h r)

Answers-cases :
    {A : Type 0} {failed : Bool} {o : Outcome (Option A)}
    → Answers failed o
    → ((failed ≡ false) × ((a : A) × (o ≡ returned (some a))))
      ⊎ ((failed ≡ true) × (o ≡ returned none))
Answers-cases (gives a) = inl (refl, (a, refl))
Answers-cases denies = inr (refl, refl)

-- On a kernel that reads the chat log as `ReadsLog` says, `messagesFromFirstClientConnection` always
-- returns. If no call fails, the result is the size of the chat log, and the client was sent the
-- longest ending of the last 1050 bytes that has at most seven newlines; if any call fails (a write
-- that takes fewer bytes included), the result is -1.
pub messages_from_first_client_connection_total :
    {S : Type 0} (k : Kernel S) (fd : ℕ) (file : S → Bytes) (at : S → ℕ)
    → ReadsLog k fd file at
    → (s : S) (client_fd : ℕ)
    → let r = run k (messages_from_first_client_connection fd client_fd) s in
      ((some_fails false r.trace ≡ false)
        × (r.outcome ≡ returned (some (length (file s))))
        × (written client_fd r.trace
            ≡ last_lines lines_send_back_to_client
                (drop (length (file s) - max_characters_back_client) (file s))))
      ⊎ ((some_fails false r.trace ≡ true) × (r.outcome ≡ returned none))
messages_from_first_client_connection_total k fd file at log s client_fd =
    let p = messages_from_first_client_connection fd client_fd in
    elim (Answers-cases
      (run-Answers k p s false (messages_from_first_client_connection-Strict fd client_fd))) [
        | inl (well, (n, given)) ↦
            let (size, sent) =
              messages_from_first_client_connection-Sends k fd file at log s client_fd n given in
            inl (well, given ∙ ap (λ n. returned (some n)) size, sent)
        | inr failed ↦ inr failed
      ]
