-- ===== src/Client/Ends.antt =====
-- Which ends of pipes a process of the client has open.
use papaya_chat.Base.{
  String, ℕ, zero, suc, ◌≡◌, refl, ap, sym, subst, List, [], ◌∷◌, ◌++◌, Option, none, some, Bool,
  true, false, not, Bytes, ◌==◌, ==_iff, arith, inl, inr, Bool-cases,
}
use papaya_chat.Posix.{
  Prog, return, ends, spent, call, ◌>>=◌, Call, Reply, Event, Kernel, run, Forked, in_child,
  in_parent, pipe, fork, close,
}
use papaya_chat.Posix.Monitor.{remove}
use papaya_chat.Posix.Only.{Only, Only-bind, if-Only}
use papaya_chat.Errors.{stop_with, terminate, terminate_by}
use papaya_chat.ChatLog.{wrote}
use papaya_chat.Messages.{
  handle_send_socket, send_round, send_into, send_read, handle_read_socket, receive_round,
  receive_into, receive_read,
}

-- The replies of fork(2), the ends of the pipes that were made, and those that are open.
pub record Pipes : Type 0 where
  pub forks : List Forked
  pub reads : List ℕ
  pub writes : List ℕ
  pub open_ends : List ℕ

abbrev pub pipe_step : (c : Call) → Reply c → Pipes → Pipes
pipe_step pipe (some (r, w)) p = record p {
  reads = p.reads ++ r ∷ [];
  writes = p.writes ++ w ∷ [];
  open_ends = r ∷ w ∷ p.open_ends;
}
pipe_step pipe none p = p
pipe_step fork f p = record p { forks = p.forks ++ f ∷ [] }
pipe_step (close fd) r p = record p { open_ends = remove fd p.open_ends }
pipe_step c r p = p

abbrev pub pipes : Pipes → List Event → Pipes
pipes p [] = p
pipes p (e ∷ es) = pipes (pipe_step e.asked e.reply p) es

abbrev pub keeps_pipes : Call → Bool
keeps_pipes pipe = false
keeps_pipes fork = false
keeps_pipes (close fd) = false
keeps_pipes c = true

keeps_pipes_lem : (c : Call) (r : Reply c) (p : Pipes) → keeps_pipes c ≡ true → pipe_step c r p ≡ p
keeps_pipes_lem pipe r p e = cc
keeps_pipes_lem fork r p e = cc
keeps_pipes_lem (close fd) r p e = cc
keeps_pipes_lem c r p e = refl

-- What the child that sends holds, and what the child that receives holds.
abbrev pub HoldsOwn : List Forked → List ℕ → List ℕ → List ℕ → Type 0
HoldsOwn (in_child ∷ []) (r₁ ∷ _) _ open_ends = open_ends ≡ r₁ ∷ []
HoldsOwn (in_parent pid ∷ in_child ∷ []) _ (w₁ ∷ w₂ ∷ _) open_ends = open_ends ≡ w₂ ∷ []
HoldsOwn _ _ _ _ = Unit

abbrev pub Holds : Pipes → Type 0
Holds p = HoldsOwn p.forks p.reads p.writes p.open_ends

-- After a part that neither makes nor closes a pipe, and does not fork.
pub Holds-bind :
    {A B S : Type 0} (k : Kernel S) (m : Prog A) (f : A → Prog B) (s : S) (p : Pipes)
    → Only keeps_pipes m
    → Holds p
    → ((a : A) (s : S) → Holds (pipes p (run k (f a) s).trace))
    → Holds (pipes p (run k (m >>= f) s).trace)
Holds-bind k (return a) f s p h e g = g a s
Holds-bind k (ends x) f s p h e g = e
Holds-bind k spent f s p h e g = e
Holds-bind k (call c m) f s p h e g =
    let (r, s') = k.answer c s in
    subst (λ q. Holds (pipes q (run k (m r >>= f) s').trace)) (sym (keeps_pipes_lem c r p h.0))
      (Holds-bind k (m r) f s' p (h.1 r) e g)

pub Holds-Only :
    {A S : Type 0} (k : Kernel S) (m : Prog A) (s : S) (p : Pipes)
    → Only keeps_pipes m
    → Holds p
    → Holds (pipes p (run k m s).trace)
Holds-Only k (return a) s p h e = e
Holds-Only k (ends x) s p h e = e
Holds-Only k spent s p h e = e
Holds-Only k (call c m) s p h e =
    let (r, s') = k.answer c s in
    subst (λ q. Holds (pipes q (run k (m r) s').trace)) (sym (keeps_pipes_lem c r p h.0))
      (Holds-Only k (m r) s' p (h.1 r) e)

pub remove_second : (a b : ℕ) → remove b (a ∷ b ∷ []) ≡ a ∷ []
remove_second a b = elim (Bool-cases (b == a)) [
  | inl e ↦ rw e (ap (λ x. x ∷ []) ((==_iff b a).0 e))
  | inr e ↦ (let same : (b == b) ≡ true = ground arith in rw (e, same) refl)
]

pub remove_head : (a : ℕ) (rest : List ℕ) → remove a (a ∷ rest) ≡ rest
remove_head a rest = let same : (a == a) ≡ true = ground arith in rw same refl

pub stop_with-Only : (A : Type 0) (message : String) → Only keeps_pipes (stop_with {A = A} message)
unfolding stop_with terminate terminate_by
stop_with-Only A message =
    (refl, λ _. (refl, elim [ none ↦ tt | some [] ↦ tt | some (b ∷ bytes) ↦ tt ]))

send_read-Only :
    (server_fd block : ℕ) (o : Option Bytes) → Only keeps_pipes (send_read server_fd block o)
unfolding send_read
send_read-Only server_fd block none = (refl, λ _. stop_with-Only (Unit {0}) _)
send_read-Only server_fd block (some []) = (refl, λ _. stop_with-Only (Unit {0}) _)
send_read-Only server_fd block (some (b ∷ bytes)) = (
  refl,
  λ sent.
      if-Only keeps_pipes (not (wrote (b ∷ bytes) sent)) _ _
        (refl, λ _. stop_with-Only (Unit {0}) _) (refl, λ _. tt),
)

receive_read-Only :
    (pipe_fd block : ℕ) (o : Option Bytes) → Only keeps_pipes (receive_read pipe_fd block o)
unfolding receive_read
receive_read-Only pipe_fd block none = (refl, λ _. stop_with-Only (Unit {0}) _)
receive_read-Only pipe_fd block (some []) = (refl, λ _. stop_with-Only (Unit {0}) _)
receive_read-Only pipe_fd block (some (b ∷ bytes)) = (
  refl,
  λ sent.
      if-Only keeps_pipes (not (wrote (b ∷ bytes) sent)) _ _ (stop_with-Only (Unit {0}) _)
        (refl, λ _. tt),
)

pub send_loop-Only :
    (rounds server_fd pipe_fd : ℕ) → Only keeps_pipes (handle_send_socket rounds server_fd pipe_fd)
unfolding handle_send_socket send_round send_into
send_loop-Only zero server_fd pipe_fd = tt
send_loop-Only (suc n) server_fd pipe_fd =
    Only-bind keeps_pipes (send_round server_fd pipe_fd) _
      (
        refl,
        elim [
          | none ↦ stop_with-Only (Unit {0}) _
          | some b ↦ (refl, λ o. send_read-Only server_fd b.addr o)
        ],
      )
      (λ _. send_loop-Only n server_fd pipe_fd)

pub receive_loop-Only :
    (rounds server_fd pipe_fd : ℕ) → Only keeps_pipes (handle_read_socket rounds server_fd pipe_fd)
unfolding handle_read_socket receive_round receive_into
receive_loop-Only zero server_fd pipe_fd = tt
receive_loop-Only (suc n) server_fd pipe_fd =
    Only-bind keeps_pipes (receive_round server_fd pipe_fd) _
      (
        refl,
        elim [
          | none ↦ stop_with-Only (Unit {0}) _
          | some b ↦ (refl, λ o. receive_read-Only pipe_fd b.addr o)
        ],
      )
      (λ _. receive_loop-Only n server_fd pipe_fd)

-- In the parent of both children there is nothing more to show.
grows :
    (c : Call) (r : Reply c) (p : Pipes) (a b : ℕ) (rest : List Forked)
    → p.forks ≡ in_parent a ∷ in_parent b ∷ rest
    → (rest' : List Forked) × ((pipe_step c r p).forks ≡ in_parent a ∷ in_parent b ∷ rest')
grows fork f p a b rest e = (rest ++ f ∷ [], ap (λ fs. fs ++ f ∷ []) e)
grows pipe (some ends_of_pipe) p a b rest e = (rest, e)
grows pipe none p a b rest e = (rest, e)
grows (close fd) r p a b rest e = (rest, e)
grows c r p a b rest e = (rest, e)

pub parent-Holds :
    (t : List Event) (p : Pipes) (a b : ℕ) (rest : List Forked)
    → p.forks ≡ in_parent a ∷ in_parent b ∷ rest
    → Holds (pipes p t)
parent-Holds [] p a b rest e = subst (λ fs. HoldsOwn fs p.reads p.writes p.open_ends) (sym e) tt
parent-Holds (x ∷ t) p a b rest e =
    let (rest', e') = grows x.asked x.reply p a b rest e in
    parent-Holds t (pipe_step x.asked x.reply p) a b rest' e'
