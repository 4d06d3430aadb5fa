-- ===== src/Signals/Dispositions.antt =====
-- The dispositions of signals that a process has after its calls.
use papaya_chat.Base.{◌≡◌, List, [], ◌∷◌, Option, none, some, true, false, if◌then◌else◌, arith}
use papaya_chat.Posix.{
  Kernel, run, Outcome, returned, Call, Reply, Event, Signal, sigchld, sigusr1, Handler, sig_ign,
  catch_sigchld, Flags, sa_restart, unset, sigaction,
}
use papaya_chat.Posix.Monitor.{signal_eq}
use papaya_chat.Signals.{Status, success, one, failure, configure_signal_disposition}

-- `none` is the disposition that the process began with.
abbrev pub disposition_step :
    Signal → (c : Call) → Reply c → Option (Handler × Flags) → Option (Handler × Flags)
disposition_step x (sigaction y h f) true d = if signal_eq x y then some (h, f) else d
disposition_step x (sigaction y h f) false d = d
disposition_step x _ r d = d

abbrev pub disposition : Signal → Option (Handler × Flags) → List Event → Option (Handler × Flags)
disposition x d [] = d
disposition x d (e ∷ es) = disposition x (disposition_step x e.asked e.reply d) es

-- What the server has after each result.
abbrev pub IsConfigured : Status → List Event → Type 0
IsConfigured success t =
    (disposition sigusr1 none t ≡ some (sig_ign, unset))
    × (disposition sigchld none t ≡ some (catch_sigchld, sa_restart))
IsConfigured one t =
    (disposition sigusr1 none t ≡ some (sig_ign, unset)) × (disposition sigchld none t ≡ none)
IsConfigured failure t = disposition sigchld none t ≡ none

abbrev pub ReturnsConfigured : Outcome Status → List Event → Type 0
ReturnsConfigured (returned s) t = IsConfigured s t
ReturnsConfigured _ t = ⊥

-- Whatever the kernel replies, `configureSignalDisposition` returns. With 0, SIGUSR1 is ignored and
-- SIGCHLD goes to `catchSIGCHLD` with SA_RESTART; with 1 or -1, no handler of SIGCHLD was
-- installed; with 1, SIGUSR1 is ignored all the same.
pub configure_signal_disposition-ReturnsConfigured :
    {S : Type 0} (k : Kernel S) (s : S)
    → let r = run k configure_signal_disposition s in ReturnsConfigured r.outcome r.trace
unfolding configure_signal_disposition
configure_signal_disposition-ReturnsConfigured k s = ground arith
