-- ===== src/Server/Start.antt =====
-- The start of the server: what is in place when it accepts its first connection.
use papaya_chat.Errors.{stop_with, terminate, terminate_by}
use papaya_chat.Base.{[], ◌∷◌, none, some, ℕ, ◌≡◌, refl, Bool, true, false}
use papaya_chat.Posix.{Prog, ◌>>=◌, Kernel, run}
use papaya_chat.Posix.Ready.{accepts_ready, Ready, Ready-bind, Ready-true, run-Ready}
use papaya_chat.Signals.{Status, success, one, failure, configure_signal_disposition}
use papaya_chat.Daemon.{daemon_creation, daemon_flag_no_chdir}
use papaya_chat.Daemon.Accepts.{daemon_creation-AcceptsNone}
use papaya_chat.Server.{main, configure_term_handler, is_failure}

-- After `configureTermHandler`, with SIGUSR1 ignored.
term_handler-Ready :
    {A : Type 0} (handled : Bool) (f : Bool → Prog A)
    → ((handled : Bool) → Ready true handled (f false))
    → Ready true handled (configure_term_handler >>= f)
unfolding configure_term_handler
term_handler-Ready handled f stops = (
  refl,
  elim [
    | true ↦ (refl, elim [ true ↦ Ready-true (f true) | false ↦ stops handled ])
    | false ↦ stops handled
  ],
)

-- After `configureSignalDisposition`, whose result is looked at.
disposition-Ready :
    {A : Type 0} (ignored handled : Bool) (f : Status → Prog A)
    → ((ignored handled : Bool) → Ready ignored handled (f failure))
    → ((handled : Bool) → Ready true handled (f success))
    → ((handled : Bool) → Ready true handled (f one))
    → Ready ignored handled (configure_signal_disposition >>= f)
unfolding configure_signal_disposition
disposition-Ready ignored handled f stops goes goes' = (
  refl,
  elim [
    | true ↦ (
      refl,
      elim [
        | true ↦ (
          refl,
          elim [
            | true ↦ (refl, elim [ true ↦ goes handled | false ↦ stops true handled ])
            | false ↦ goes' handled
          ],
        )
        | false ↦ goes' handled
      ],
    )
    | false ↦ stops ignored handled
  ],
)

main-Ready : (rounds : ℕ) → Ready false false (main rounds)
unfolding main is_failure stop_with terminate terminate_by
main-Ready rounds =
    Ready-bind (daemon_creation daemon_flag_no_chdir) _
      (daemon_creation-AcceptsNone daemon_flag_no_chdir)
      (λ ignored handled. elim [
        | true ↦ (
          refl,
          λ _.
              disposition-Ready ignored handled _ (λ i h. (refl, λ _. tt))
                (λ h. term_handler-Ready h _ (λ h'. (refl, λ _. tt)))
                (λ h. term_handler-Ready h _ (λ h'. (refl, λ _. tt))),
        )
        | false ↦ (refl, λ _. (refl, elim [ none ↦ tt | some [] ↦ tt | some (c ∷ cs) ↦ tt ]))
      ])
      false false

-- Whatever the kernel replies: the server accepts a connection only after it has set SIGUSR1 to be
-- ignored, which its children send to the whole group, and has installed its handler of SIGTERM.
pub main-accepts_ready :
    {S : Type 0} (k : Kernel S) (s : S) (rounds : ℕ)
    → accepts_ready false false (run k (main rounds) s).trace ≡ true
main-accepts_ready k s rounds = run-Ready k (main rounds) s false false (main-Ready rounds)
