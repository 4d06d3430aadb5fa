-- ===== src/Tests/Rooms.antt =====
-- Several processes at once, on a kernel that appends to one chat log.
use papaya_chat.Base.{
  codes, ℕ, zero, suc, ◌≡◌, refl, sym, append-nil, List, [], ◌∷◌, ◌++◌, Option, some, Bytes, length,
  ◌==◌, if◌then◌else◌, inl, inr, Bool-cases, true,
}
use papaya_chat.Posix.{Call, Reply, Prog, return, read, write, kill}
use papaya_chat.Posix.Monitor.{taken}
use papaya_chat.Posix.Together.{Shared, together}
use papaya_chat.ChatLog.{exclusive_write}
use papaya_chat.ChatLog.Race.{two_readers, shared_read-race}
use papaya_chat.ChatLog.Locks.{take-length}
use papaya_chat.ClientRequest.{
  receive_messages, receive_loop, receive_round, receive_into, handle_read, kill_child,
}
use papaya_chat.ClientRequest.Room.{room, each_text, messages_by, receive_messages-room}
use papaya_chat.Tests.Sim.{Sim, reply_of}
use papaya_chat.Tests.Logs.{start}

-- What each client still sends.
record Site : Type 0 where
  base : Sim
  chat : Bytes
  ann : List Bytes
  bob : List Bytes

abbrev next_ann : List Bytes → Site → Option Bytes × Site
next_ann [] s = (some [], s)
next_ann (m ∷ ms) s = (some m, record s { ann = ms })

abbrev next_bob : List Bytes → Site → Option Bytes × Site
next_bob [] s = (some [], s)
next_bob (m ∷ ms) s = (some m, record s { bob = ms })

abbrev in_site : {A : Type 0} → A × Sim → Site → A × Site
in_site p s = (p.0, record s { base = p.1 })

abbrev site_reply_of : ℕ → (c : Call) → Site → Reply c × Site
site_reply_of i (write fd bs) s =
    (some (length bs), if 3 == fd then record s { chat = s.chat ++ bs } else s)
site_reply_of i (read fd n) s = if i == 0 then next_ann s.ann s else next_bob s.bob s
site_reply_of i (kill pid x) s = (true, s)
site_reply_of i c s = in_site (reply_of c s.base) s

abbrev site : Shared Site
site = record { answer = site_reply_of }

next_ann-chat : (ms : List Bytes) (s : Site) → (next_ann ms s).1.chat ≡ s.chat
next_ann-chat [] s = refl
next_ann-chat (m ∷ ms) s = refl

next_bob-chat : (ms : List Bytes) (s : Site) → (next_bob ms s).1.chat ≡ s.chat
next_bob-chat [] s = refl
next_bob-chat (m ∷ ms) s = refl

site-appends :
    (i : ℕ) (c : Call) (s : Site)
    → let (r, s') = site.answer i c s in s'.chat ≡ s.chat ++ taken 3 c r
site-appends i (write fd bs) s = elim (Bool-cases (3 == fd)) [
  | inl e ↦ rw (e, take-length bs) refl
  | inr e ↦ rw e (sym (append-nil s.chat))
]
site-appends i (read fd n) s = elim (Bool-cases (i == 0)) [
  | inl e ↦ rw (e, next_ann-chat s.ann s) (sym (append-nil s.chat))
  | inr e ↦ rw (e, next_bob-chat s.bob s) (sym (append-nil s.chat))
]
site-appends i c s = sym (append-nil s.chat)

abbrev alternate : ℕ → List ℕ
alternate zero = []
alternate (suc n) = 0 ∷ 1 ∷ alternate n

abbrev two_clients : ℕ → Prog (Unit {0})
two_clients zero = receive_messages 3 4 3 77
two_clients (suc n) = receive_messages 3 6 3 78

abbrev opened : Site
opened = record {
  base = start;
  chat = codes "-\n";
  ann = codes "a: x\n" ∷ codes "a: z\n" ∷ [];
  bob = codes "b: y\n" ∷ [];
}

receive_messages-room_example :
    let r = together site (alternate 30) two_clients opened in
    (r.final.chat ≡ codes "-\na: x\nb: y\na: z\n")
    × (each_text (messages_by 0 (room 3 r.history)) ≡ codes "a: x\n" ∷ codes "a: z\n" ∷ [])
unfolding receive_messages receive_loop receive_round receive_into handle_read exclusive_write
    kill_child
receive_messages-room_example =
    receive_messages-room site 3 (λ s. s.chat) site-appends (alternate 30) two_clients opened 0 3 4
      77 refl refl

-- One offset for all processes.
abbrev inherited : Shared Sim
inherited = record { answer = λ i c s. reply_of c s }

shared_read-race_example :
    let s = record start { log = codes "a: x\nb: y\n" } in
    (together inherited (0 ∷ 0 ∷ 1 ∷ 1 ∷ 0 ∷ 0 ∷ []) (two_readers 3 5 0 5) s).processes 0
    ≡ return (some (codes "b: y\n"))
shared_read-race_example =
    shared_read-race inherited 3 5 0 5 (λ s. s.log) (λ s. s.at)
      (record {
        locks = λ i op s. (refl, refl, refl);
        seeks = λ i o s. (refl, refl, refl);
        reads = λ i n s. refl;
      })
      (record start { log = codes "a: x\nb: y\n" })
