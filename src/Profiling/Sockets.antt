-- ===== src/Profiling/Sockets.antt =====
-- profiling/C_Server/inet_sockets.c: the copy of inet_sockets.c, in which one constant of one function
-- differs.
use papaya_chat.Base.{[], false, ℕ, Option, Bytes}
use papaya_chat.Posix.{Prog, sys, ◌>>=◌, Kernel, run, getaddrinfo}
use papaya_chat.Posix.Monitor.{sockets}
use papaya_chat.Sockets.{af_inet, connect_found}
use papaya_chat.Sockets.Leaks.{Owns, connect_found-Owns}

-- Only IPv4 addresses are looked up.
client_connect : Option Bytes → Bytes → ℕ → Prog (Option ℕ)
client_connect host service type = do
  results ←
      sys (getaddrinfo host service (record { family = af_inet; socktype = type; passive = false }))
  connect_found results

-- It leaves no socket open but the one that it returns.
ipv4-Owns :
    {S : Type 0} (k : Kernel S) (host : Option Bytes) (service : Bytes) (type : ℕ) (s : S)
    → let r = run k (client_connect host service type) s in Owns k r.outcome (sockets [] r.trace)
unfolding client_connect
ipv4-Owns k host service type s = connect_found-Owns k _ _
