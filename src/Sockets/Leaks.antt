-- ===== src/Sockets/Leaks.antt =====
-- Which sockets are open when the functions return.
use papaya_chat.Base.{
  ℕ, ◌≡◌, refl, List, [], ◌∷◌, Option, none, some, Bool, true, false, Bytes, arith,
}
use papaya_chat.Posix.{
  Kernel, run, Run, Outcome, returned, AddrInfo, Prog, socket, close, bind, set_reuse_addr,
}
use papaya_chat.Posix.Monitor.{sockets, socket_step, deaf}
use papaya_chat.Sockets.{
  connected, try_connect, connect_any, connect_found, client_connect, Passive, listen_on, bind_to,
  try_bind, bind_any, inet_passive_socket, bind_found,
}

module _ {S : Type 0} (k : Kernel S) where
  -- The socket that is returned is the one that is open; with -1, none is.
  abbrev pub Owns : Outcome (Option ℕ) → List ℕ → Type 0
  Owns (returned none) open_fds = open_fds ≡ []
  Owns (returned (some fd)) open_fds = open_fds ≡ fd ∷ []
  Owns _ open_fds = ⊥

  connected-Owns :
      (s : S) (fd : ℕ) (next : Prog (Option ℕ)) (joined : Bool)
      → ((s' : S) → Owns (run k next s').outcome (sockets [] (run k next s').trace))
      → let r = run k (connected fd next joined) s in Owns r.outcome (sockets (fd ∷ []) r.trace)
  unfolding connected
  connected-Owns s fd next true h = refl
  connected-Owns s fd next false h = ground (arith, h (k.answer (close fd) s).1)

  try_connect-Owns :
      (s : S) (a : AddrInfo) (next : Prog (Option ℕ)) (o : Option ℕ)
      → ((s' : S) → Owns (run k next s').outcome (sockets [] (run k next s').trace))
      → let r = run k (try_connect a next o) s in
        Owns r.outcome (sockets (socket_step (socket a) o []) r.trace)
  unfolding try_connect
  try_connect-Owns s a next none h = h s
  try_connect-Owns s a next (some fd) h = connected-Owns _ fd next _ h

  connect_any-Owns :
      (results : List AddrInfo) (s : S)
      → let r = run k (connect_any results) s in Owns r.outcome (sockets [] r.trace)
  unfolding connect_any
  connect_any-Owns [] s = refl
  connect_any-Owns (a ∷ rest) s =
      try_connect-Owns (k.answer (socket a) s).1 a (connect_any rest) (k.answer (socket a) s).0
        (connect_any-Owns rest)

  pub connect_found-Owns :
      (o : Option (List AddrInfo)) (s : S)
      → let r = run k (connect_found o) s in Owns r.outcome (sockets [] r.trace)
  unfolding connect_found
  connect_found-Owns none s = refl
  connect_found-Owns (some results) s = connect_any-Owns results s

  -- Whatever the kernel replies, `clientConnect` returns. If the result is a descriptor, then that
  -- is the one socket that is left open; if it is -1, then every socket was closed again.
  pub client_connect-Owns :
      (host : Option Bytes) (service : Bytes) (type : ℕ) (s : S)
      → let r = run k (client_connect host service type) s in Owns r.outcome (sockets [] r.trace)
  unfolding client_connect
  client_connect-Owns host service type s = connect_found-Owns _ _

  -- The same for a listening socket: with -1, what is left open is what listen(2) failed on.
  abbrev pub OwnsPassive : Outcome (Option Passive) → List ℕ → List ℕ → Type 0
  OwnsPassive (returned none) open_fds deaf_fds = open_fds ≡ deaf_fds
  OwnsPassive (returned (some p)) open_fds deaf_fds = (open_fds ≡ p.fd ∷ []) × (deaf_fds ≡ [])
  OwnsPassive _ open_fds deaf_fds = ⊥

  abbrev pub RunOwns : List ℕ → Run (Option Passive) S → Type 0
  RunOwns held r = OwnsPassive r.outcome (sockets held r.trace) (deaf r.trace)

  listen_on-RunOwns :
      (s : S) (do_listen : Bool) (backlog : ℕ) (p : Passive)
      → RunOwns (p.fd ∷ []) (run k (listen_on do_listen backlog p) s)
  unfolding listen_on
  listen_on-RunOwns s do_listen backlog p = ground arith

  module _ (do_listen : Bool) (backlog : ℕ) (next : Prog (Option Passive))
      (h : (s : S) → RunOwns [] (run k next s)) where
    bind_to-RunOwns :
        (s : S) (a : AddrInfo) (fd : ℕ)
        → RunOwns (fd ∷ []) (run k (bind_to do_listen backlog a fd next) s)
    unfolding bind_to
    bind_to-RunOwns s a fd = ground (
      arith,
      listen_on-RunOwns (k.answer (bind fd a) s).1 do_listen backlog
          (record { fd = fd; addrlen = a.addrlen }),
      h (k.answer (close fd) (k.answer (bind fd a) s).1).1,
    )

    try_bind-RunOwns :
        (s : S) (a : AddrInfo) (o : Option ℕ)
        → RunOwns (socket_step (socket a) o []) (run k (try_bind do_listen backlog a next o) s)
    unfolding try_bind
    try_bind-RunOwns s a none = h s
    try_bind-RunOwns s a (some fd) =
        ground
          (arith, bind_to-RunOwns s a fd, bind_to-RunOwns (k.answer (set_reuse_addr fd) s).1 a fd)

  bind_any-RunOwns :
      (do_listen : Bool) (backlog : ℕ) (results : List AddrInfo) (s : S)
      → RunOwns [] (run k (bind_any do_listen backlog results) s)
  unfolding bind_any
  bind_any-RunOwns do_listen backlog [] s = refl
  bind_any-RunOwns do_listen backlog (a ∷ rest) s =
      try_bind-RunOwns do_listen backlog (bind_any do_listen backlog rest)
        (bind_any-RunOwns do_listen backlog rest) (k.answer (socket a) s).1 a
        (k.answer (socket a) s).0

  bind_found-RunOwns :
      (do_listen : Bool) (backlog : ℕ) (o : Option (List AddrInfo)) (s : S)
      → RunOwns [] (run k (bind_found do_listen backlog o) s)
  unfolding bind_found
  bind_found-RunOwns do_listen backlog none s = refl
  bind_found-RunOwns do_listen backlog (some results) s =
      bind_any-RunOwns do_listen backlog results s

  -- Whatever the kernel replies, `inetPassiveSocket` returns. If the result is a descriptor, then
  -- that is the one socket that is left open; if it is -1, then the sockets left open are those on
  -- which listen(2) failed: the code does not close them.
  pub inet_passive_socket-RunOwns :
      (service : Bytes) (type : ℕ) (do_listen : Bool) (backlog : ℕ) (s : S)
      → RunOwns [] (run k (inet_passive_socket service type do_listen backlog) s)
  unfolding inet_passive_socket
  inet_passive_socket-RunOwns service type do_listen backlog s =
      bind_found-RunOwns do_listen backlog _ _
