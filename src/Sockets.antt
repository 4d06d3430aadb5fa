-- ===== src/Sockets.antt =====
-- inet_sockets.c: sockets that connect, and sockets that listen.
--
-- A result of -1 is `none`. Nothing calls `inet_address_str`.
pub mod Leaks
use papaya_chat.Errors.{stop_with}
use papaya_chat.CString.{c_str, snprintf_s}
use papaya_chat.Base.{
  codes, ◌++◌, ℕ, List, [], ◌∷◌, Option, none, some, Bool, true, false, not, Bytes, if◌then◌else◌,
}
use papaya_chat.Posix.{
  Prog, return, ends, spent, call, sys, ◌>>=◌, ◌>>◌, exit, AddrInfo, Hints, getaddrinfo,
  freeaddrinfo, socket, connect, set_reuse_addr, bind, listen, close, diagnose, getnameinfo,
}

abbrev pub sock_stream : ℕ
sock_stream = 1

abbrev af_unspec : ℕ
af_unspec = 0

abbrev pub af_inet : ℕ
af_inet = 2

-- After connect(2): out of the loop, or on to the next address.
connected : ℕ → Prog (Option ℕ) → Bool → Prog (Option ℕ)
connected socket_fd next true = do sys freeaddrinfo; return (some socket_fd)
connected socket_fd next false = do sys (close socket_fd); next

-- After socket(2).
try_connect : AddrInfo → Prog (Option ℕ) → Option ℕ → Prog (Option ℕ)
unfolding connected
try_connect address next none = next
try_connect address next (some socket_fd) = do
  joined ← sys (connect socket_fd address)
  connected socket_fd next joined

-- The walk through the results.
connect_any : List AddrInfo → Prog (Option ℕ)
unfolding try_connect
connect_any [] = do sys freeaddrinfo; return none
connect_any (address ∷ rest) = do
  socket_fd ← sys (socket address)
  try_connect address (connect_any rest) socket_fd

pub connect_found : Option (List AddrInfo) → Prog (Option ℕ)
unfolding connect_any
connect_found none = return none
connect_found (some results) = connect_any results

pub client_connect : Option Bytes → Bytes → ℕ → Prog (Option ℕ)
unfolding connect_found
client_connect host service type = do
  results ←
      sys
        (getaddrinfo host service (record { family = af_unspec; socktype = type; passive = false }))
  connect_found results

or_exit : Option ℕ → Prog ℕ
unfolding stop_with
or_exit none = stop_with "clientConnect"
or_exit (some server_fd) = return server_fd

pub establish_connection : Option Bytes → Bytes → Prog ℕ
unfolding or_exit
establish_connection host service = do
  server_fd ← client_connect host service sock_stream
  or_exit server_fd

-- A bound socket, with the length of its address.
pub record Passive : Type 0 where
  pub fd : ℕ
  pub addrlen : ℕ

-- After the loop, at an address that was bound.
listen_on : Bool → ℕ → Passive → Prog (Option Passive)
listen_on do_listen backlog p = do
  if not do_listen then (do sys freeaddrinfo; return (some p)) else (do
    listens ← sys (listen p.fd backlog)
    sys freeaddrinfo
    if not listens then return none else return (some p))

-- At a socket with its options set.
bind_to : Bool → ℕ → AddrInfo → ℕ → Prog (Option Passive) → Prog (Option Passive)
unfolding listen_on
bind_to do_listen backlog address socket_fd next = do
  bound ← sys (bind socket_fd address)
  if bound
      then listen_on do_listen backlog (record { fd = socket_fd; addrlen = address.addrlen })
      else (do sys (close socket_fd); next)

-- After socket(2).
try_bind : Bool → ℕ → AddrInfo → Prog (Option Passive) → Option ℕ → Prog (Option Passive)
unfolding bind_to
try_bind do_listen backlog address next none = next
try_bind do_listen backlog address next (some socket_fd) =
    if not do_listen then bind_to do_listen backlog address socket_fd next else do
      reused ← sys (set_reuse_addr socket_fd)
      if reused
          then bind_to do_listen backlog address socket_fd next
          else (do sys (close socket_fd); sys freeaddrinfo; return none)

-- The walk through the results.
bind_any : Bool → ℕ → List AddrInfo → Prog (Option Passive)
unfolding try_bind
bind_any do_listen backlog [] = do sys freeaddrinfo; return none
bind_any do_listen backlog (address ∷ rest) = do
  socket_fd ← sys (socket address)
  try_bind do_listen backlog address (bind_any do_listen backlog rest) socket_fd

bind_found : Bool → ℕ → Option (List AddrInfo) → Prog (Option Passive)
unfolding bind_any
bind_found do_listen backlog none = return none
bind_found do_listen backlog (some results) = bind_any do_listen backlog results

pub inet_passive_socket : Bytes → ℕ → Bool → ℕ → Prog (Option Passive)
unfolding bind_found
inet_passive_socket service type do_listen backlog = do
  results ←
      sys (getaddrinfo none service (record { family = af_inet; socktype = type; passive = true }))
  bind_found do_listen backlog results

pub server_listen : Bytes → ℕ → Prog (Option Passive)
unfolding inet_passive_socket
server_listen service backlog = inet_passive_socket service sock_stream true backlog

pub inet_bind : Bytes → ℕ → Prog (Option Passive)
unfolding inet_passive_socket
inet_bind service type = inet_passive_socket service type false 0

-- After getnameinfo(3).
address_text : Option (Bytes × Bytes) → Bytes
address_text none = codes "(?UNKNOWN?)"
address_text (some (host, service)) =
    codes "(" ++ (c_str host ++ (codes ", " ++ (c_str service ++ codes ")")))

-- The string that `addrStr` then holds, if `addrStrLen` is not 0.
pub inet_address_str : ℕ → ℕ → ℕ → Prog Bytes
unfolding address_text
inet_address_str addr addrlen addr_str_len = do
  names ← sys (getnameinfo addr addrlen)
  return (snprintf_s addr_str_len (address_text names))
