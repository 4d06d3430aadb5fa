-- ===== src/Server/Dispositions.antt =====
-- What signals do to the processes that serve the clients: each inherits the dispositions of the
-- server, that of SIGTERM included, and the receiving process sends SIGUSR1 to its own group.
use papaya_chat.Base.{
  ℕ, zero, suc, ◌≡◌, refl, subst, List, [], ◌∷◌, ◌++◌, Option, none, some, true, false, Bytes, inl,
}
use papaya_chat.Config.{key_length}
use papaya_chat.CString.{strncmp_eq, overwrite}
use papaya_chat.Posix.{
  Block, fork_failed, in_child, in_parent, Kernel, run, Event, sigterm, sigusr1, sig_ign,
  term_handler,
}
use papaya_chat.Posix.Only.{Only-bind, if-Only, Each, run-Only, Each-append}
use papaya_chat.Posix.Disposition.{
  of_client, disposition, disposition-sigterm, IsHarmless, disposition-IsHarmless,
}
use papaya_chat.Signals.{configure_timeout}
use papaya_chat.ClientRequest.{handle_request}
use papaya_chat.ClientRequest.Installs.{Installs, handle_request-Installs}
use papaya_chat.Server.{
  check_key, await_key, auth_client, child, Serving, after_fork, handle_connection, accept_loop,
}

check_key-Installs : (key : Bytes) (buf : Block) (o : Option Bytes) → Installs (check_key key buf o)
unfolding check_key
check_key-Installs key buf none = (refl, λ r. tt)
check_key-Installs key buf (some []) = (refl, λ r. tt)
check_key-Installs key buf (some (b ∷ bytes)) = (
  refl,
  λ r. (
    refl,
    λ r'.
        if-Only of_client (strncmp_eq key_length (overwrite (b ∷ bytes) buf.junk) key) _ _
          (refl, λ x. (refl, λ x'. tt)) (refl, λ x. (refl, λ x'. tt)),
  ),
)

await_key-Installs :
    (client_fd : ℕ) (key : Bytes) (o : Option Block) → Installs (await_key client_fd key o)
unfolding await_key
await_key-Installs client_fd key none = (refl, λ r. tt)
await_key-Installs client_fd key (some buf) = (refl, λ r. (refl, check_key-Installs key buf))

auth_client-Installs : (client_fd : ℕ) (key : Bytes) → Installs (auth_client client_fd key)
unfolding auth_client configure_timeout
auth_client-Installs client_fd key = (
  refl,
  λ r. (refl, elim [ true ↦ (refl, await_key-Installs client_fd key) | false ↦ (refl, λ r'. tt) ]),
)

module _ (rounds : ℕ) where
  child-Installs :
      (listen_fd client_fd chatlog_fd key_addr : ℕ) (key : Bytes)
      → Installs (child rounds listen_fd client_fd chatlog_fd key key_addr)
  unfolding child
  child-Installs listen_fd client_fd chatlog_fd key_addr key = (
    refl,
    λ r. (
      refl,
      λ r'.
          Only-bind of_client (auth_client client_fd key) _ (auth_client-Installs client_fd key)
            (elim [
              | true ↦ (
                refl,
                λ x. (
                  refl,
                  λ x'.
                      Only-bind of_client (handle_request rounds client_fd chatlog_fd) _
                        (handle_request-Installs rounds client_fd chatlog_fd)
                        (λ u. (refl, λ x''. tt)),
                ),
              )
              | false ↦ (refl, λ x. (refl, λ x'. tt))
            ]),
    ),
  )

  handle_connection-Installs :
      (v : Serving) (o : Option ℕ) → Installs (handle_connection rounds v o)
  unfolding handle_connection after_fork
  handle_connection-Installs v none = (refl, λ r. tt)
  handle_connection-Installs v (some client_fd) = (
    refl,
    elim [
      | fork_failed ↦ (refl, λ r. (refl, λ r'. tt))
      | in_child ↦ child-Installs v.listen_fd client_fd v.chatlog_fd v.key_addr v.key
      | in_parent pid ↦ (refl, λ r. tt)
    ],
  )

accept_loop-Installs : (rounds : ℕ) (v : Serving) → Installs (accept_loop rounds v)
unfolding accept_loop
accept_loop-Installs zero v = tt
accept_loop-Installs (suc rounds) v = (
  refl,
  λ o.
      Only-bind of_client (handle_connection rounds v o) _ (handle_connection-Installs rounds v o)
        (λ u. accept_loop-Installs rounds v),
)

-- Let SIGTERM have the server's handler and SIGUSR1 be ignored when the accept loop begins. Whatever
-- the kernel replies, in the parent and, where fork(2) says so, in the child process of a connection
-- and in the two processes that serve a client: at every point, SIGTERM has still the handler of the
-- server, and SIGUSR1 is ignored or has the handler of the sending processes.
pub accept_loop-IsHarmless :
    {S : Type 0} (k : Kernel S) (rounds : ℕ) (v : Serving) (s : S) (before after : List Event)
    → (run k (accept_loop rounds v) s).trace ≡ before ++ after
    → (disposition sigterm term_handler before ≡ term_handler)
      × IsHarmless (disposition sigusr1 sig_ign before)
accept_loop-IsHarmless k rounds v s before after split =
    let all : Each of_client (run k (accept_loop rounds v) s).trace =
      run-Only of_client k (accept_loop rounds v) s (accept_loop-Installs rounds v) in
    let first : Each of_client before =
      Each-append of_client before after (subst (Each of_client) split all) in
    (
      disposition-sigterm term_handler before first,
      disposition-IsHarmless sig_ign before (inl refl) first,
    )
