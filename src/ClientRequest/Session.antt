-- ===== src/ClientRequest/Session.antt =====
-- The sending process over many wake-ups, while the chat log grows.
use papaya_chat.Base.{
  ℕ, zero, suc, ◌+◌, ◌≡◌, ◌≢◌, refl, ap, ap₂, subst, sym, ◌∙◌, List, [], ◌∷◌, ◌++◌, true, Bytes,
  length, take, drop, arith, append-nil, append_assoc, length-append,
}
use papaya_chat.Config.{buf_size}
use papaya_chat.Posix.{
  ◌>>=◌, Prog, return, ends, spent, call, Call, Kernel, Event, run, Run, Outcome, returned, ended,
  running, pause,
}
use papaya_chat.Posix.Monitor.{written}
use papaya_chat.Posix.Runs.{run-bind, continue, written-append}
use papaya_chat.Posix.Live.{run-Live}
use papaya_chat.ChatLog.Tail.{drop-drop}
use papaya_chat.ChatLog.Transfer.{ReadsLog}
use papaya_chat.ClientRequest.{read_chatlog_send_client, send_loop}
use papaya_chat.ClientRequest.Message.{no_nul, message_for}
use papaya_chat.ClientRequest.Send.{read_chatlog_send_client-piece}
use papaya_chat.ClientRequest.Wakeups.{read_chatlog_send_client-Live}

-- The pieces put together, as they stand in the chat log and as they are sent.
pub concat : List Bytes → Bytes
concat [] = []
concat (p ∷ ps) = p ++ concat ps

pub messages : List Bytes → Bytes
messages [] = []
messages (p ∷ ps) = message_for p ++ messages ps

no_nul-append : (a b : Bytes) → no_nul (a ++ b) ≡ true → no_nul a ≡ true
unfolding no_nul
no_nul-append [] b h = refl
no_nul-append (x ∷ a) b h = ground (arith, no_nul-append a b)

pub no_nul-take : (n : ℕ) (a : Bytes) → no_nul a ≡ true → no_nul (take n a) ≡ true
unfolding no_nul
no_nul-take zero a h = refl
no_nul-take (suc n) [] h = refl
no_nul-take (suc n) (x ∷ a) h = ground (arith, no_nul-take n a)

no_nul-drop : (n : ℕ) (a : Bytes) → no_nul a ≡ true → no_nul (drop n a) ≡ true
unfolding no_nul
no_nul-drop zero a h = h
no_nul-drop (suc n) [] h = refl
no_nul-drop (suc n) (x ∷ a) h = ground (arith, no_nul-drop n a)

-- What was taken from a text is still there when the text has grown.
take-grown : (n : ℕ) (a b : Bytes) → take (length (take n a)) (a ++ b) ≡ take n a
take-grown zero a b = refl
take-grown (suc n) [] b = refl
take-grown (suc n) (x ∷ a) b = ap (◌∷◌ x) (take-grown n a b)

take-drop_grown :
    (n o : ℕ) (a b : Bytes)
    → take (length (take n (drop o a))) (drop o (a ++ b)) ≡ take n (drop o a)
take-drop_grown n zero a b = take-grown n a b
take-drop_grown zero (suc o) [] b = refl
take-drop_grown (suc n) (suc o) [] b = refl
take-drop_grown n (suc o) (x ∷ a) b = take-drop_grown n o a b

take-add : (m n : ℕ) (l : Bytes) → take (m + n) l ≡ take m l ++ take n (drop m l)
take-add zero n l = let e : 0 + n ≡ n = omega arith in rw e refl
take-add (suc m) zero [] = let e : suc m + 0 ≡ suc m = omega arith in rw e refl
take-add (suc m) (suc n) [] = let e : suc m + suc n ≡ suc (m + suc n) = omega arith in rw e refl
take-add (suc m) n (x ∷ l) =
    let e : suc m + n ≡ suc (m + n) = omega arith in rw e (ap (◌∷◌ x) (take-add m n l))

-- A list of pieces is the text from an offset on, as far as it goes.
abbrev pub Covers : List Bytes → ℕ → Bytes → Type 0
Covers pieces offset text = concat pieces ≡ take (length (concat pieces)) (drop offset text)

Covers-nil : (offset : ℕ) (text : Bytes) → Covers [] offset text
unfolding concat
Covers-nil offset text = refl

Covers-cons :
    (piece : Bytes) (pieces : List Bytes) (offset : ℕ) (text : Bytes)
    → take (length piece) (drop offset text) ≡ piece
    → Covers pieces (offset + length piece) text
    → Covers (piece ∷ pieces) offset text
unfolding concat
Covers-cons piece pieces offset text h g = sym (
    ap (λ n. take n (drop offset text)) (length-append piece (concat pieces))
    ∙ take-add (length piece) (length (concat pieces)) (drop offset text)
    ∙ ap₂ ◌++◌ h
        (ap (take (length (concat pieces))) (drop-drop offset (length piece) text) ∙ sym g))

-- While the process runs, the chat log is only appended to, by whichever process.
abbrev pub Grows : {S : Type 0} → Kernel S → (S → Bytes) → Type 0
Grows {S} k file = (c : Call) (s : S) → (more : Bytes) × (file (k.answer c s).1 ≡ file s ++ more)

module _ {S : Type 0} (k : Kernel S) (file : S → Bytes) (grows : Grows k file) where
  run-grows :
      {A : Type 0} (p : Prog A) (s : S) → (more : Bytes) × (file (run k p s).final ≡ file s ++ more)
  run-grows (return a) s = ([], sym (append-nil (file s)))
  run-grows (ends e) s = ([], sym (append-nil (file s)))
  run-grows spent s = ([], sym (append-nil (file s)))
  run-grows (call c f) s =
      let (a, e) = grows c s in
      let (b, e') = run-grows (f (k.answer c s).0) (k.answer c s).1 in
      (a ++ b, e' ∙ ap (λ l. l ++ b) e ∙ append_assoc (file s) a b)

  module _ (client_fd chatlog_fd : ℕ) (at : S → ℕ) (log : ReadsLog k chatlog_fd file at) where
    -- Pieces of the text from the offset on were sent.
    abbrev Sent : List Event → ℕ → Bytes → Type 0
    Sent t offset text =
        (pieces : List Bytes) × (written client_fd t ≡ messages pieces) × Covers pieces offset text

    -- A wake-up, and what follows it.
    continue-Sent :
        (o : Outcome ℕ) (t : List Event) (s : S) (f : ℕ → S → Run (Unit {0}) S) (offset : ℕ)
        (piece : Bytes)
        → o ≢ running
        → ((next : ℕ)
            → o ≡ returned next
            → (next ≡ offset + length piece) × (written client_fd t ≡ message_for piece))
        → ((next : ℕ)
            → (f next s).outcome ≡ running
            → no_nul (file (f next s).final) ≡ true
            → Sent (f next s).trace next (file (f next s).final))
        → take (length piece) (drop offset (file (continue o t s f).final)) ≡ piece
        → (continue o t s f).outcome ≡ running
        → no_nul (file (continue o t s f).final) ≡ true
        → Sent (continue o t s f).trace offset (file (continue o t s f).final)
    unfolding messages
    continue-Sent running t s f offset piece alive wakes rest there h g = absurd (alive refl)
    continue-Sent (ended x) t s f offset piece alive wakes rest there h g = cc
    continue-Sent (returned next) t s f offset piece alive wakes rest there h g =
        let (pieces, sent, covers) = rest next h g in
        let (moved, woken) = wakes next refl in
        (
          piece ∷ pieces,
          written-append client_fd t (f next s).trace ∙ ap₂ ◌++◌ woken sent,
          Covers-cons piece pieces offset (file (f next s).final) there
              (subst (λ n. Covers pieces n (file (f next s).final)) moved covers),
        )

    -- On a kernel that reads the chat log as `ReadsLog` says, and where the chat log only grows and
    -- at the end holds no NUL: as long as the sender runs, what it has sent is, piece by piece, the
    -- text of the chat log from its first offset on, as far as it has come, with no byte left out
    -- and none sent twice; the last byte of each piece is replaced by a NUL.
    pub send_loop-Sent :
        (rounds offset : ℕ) (s : S)
        → (run k (send_loop rounds client_fd chatlog_fd offset) s).outcome ≡ running
        → no_nul (file (run k (send_loop rounds client_fd chatlog_fd offset) s).final) ≡ true
        → (pieces : List Bytes) × (written client_fd
              (run k (send_loop rounds client_fd chatlog_fd offset) s).trace
            ≡ messages pieces)
          × Covers pieces offset
              (file (run k (send_loop rounds client_fd chatlog_fd offset) s).final)
    unfolding send_loop messages
    send_loop-Sent zero offset s h g = ([], refl, Covers-nil offset (file s))
    send_loop-Sent (suc n) offset s h g =
        let s₁ = (k.answer pause s).1 in
        let wake = read_chatlog_send_client client_fd chatlog_fd offset in
        let follow : ℕ → Prog (Unit {0}) = send_loop n client_fd chatlog_fd in
        let r = run k wake s₁ in
        let whole = run k (wake >>= follow) s₁ in
        let (more, grown) = run-grows (wake >>= follow) s₁ in
        let piece = take buf_size (drop offset (file s₁)) in
        let same : whole ≡ continue r.outcome r.trace r.final (λ next. run k (follow next)) =
          run-bind k wake follow s₁ in
        let clean : no_nul piece ≡ true = no_nul-take buf_size _ (
          no_nul-drop offset (file s₁)
            (no_nul-append (file s₁) more (subst (λ l. no_nul l ≡ true) grown g))) in
        let there : take (length piece) (drop offset (file whole.final)) ≡ piece =
          ap (λ l. take (length piece) (drop offset l)) grown
          ∙ take-drop_grown buf_size offset (file s₁) more in
        subst (λ w. Sent w.trace offset (file w.final)) (sym same)
          (continue-Sent r.outcome r.trace r.final (λ next. run k (follow next)) offset piece
            (run-Live k wake s₁ (read_chatlog_send_client-Live client_fd chatlog_fd offset))
            (λ next e.
              read_chatlog_send_client-piece k client_fd chatlog_fd file at log s₁ offset next clean
                e)
            (λ next. send_loop-Sent n next r.final)
            (subst (λ w. take (length piece) (drop offset (file w.final)) ≡ piece) same there)
            (subst (λ w. w.outcome ≡ running) same h)
            (subst (λ w. no_nul (file w.final) ≡ true) same g))
