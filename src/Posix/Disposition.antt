-- ===== src/Posix/Disposition.antt =====
-- What a signal does to a process, by the calls of sigaction(2) that succeeded.
use papaya_chat.Base.{◌≡◌, refl, List, [], ◌∷◌, Bool, true, false, if◌then◌else◌, ◌⊎◌, inl, inr}
use papaya_chat.Posix.{
  Call, Reply, Event, Signal, Handler, sigaction, sigusr1, sigterm, sigalrm, handler_sigusr1,
  timeout_handler, no_flags, sig_ign, catch_sigchld, term_handler, sigchld,
}
use papaya_chat.Posix.Monitor.{signal_eq}
use papaya_chat.Posix.Live.{calm}
use papaya_chat.Posix.Only.{Each}

abbrev pub disposition_step : Signal → (c : Call) → Reply c → Handler → Handler
disposition_step x (sigaction y h flags) true held = if signal_eq x y then h else held
disposition_step x (sigaction y h flags) false held = held
disposition_step x _ r held = held

abbrev pub disposition : Signal → Handler → List Event → Handler
disposition x held [] = held
disposition x held (e ∷ es) = disposition x (disposition_step x e.asked e.reply held) es

-- The calls of a program that installs no handler but that of SIGUSR1 and that of the timeout.
abbrev pub of_client : Call → Bool
of_client (sigaction sigusr1 handler_sigusr1 no_flags) = true
of_client (sigaction sigalrm timeout_handler no_flags) = true
of_client (sigaction x h flags) = false
of_client c = true

step-sigterm :
    (c : Call) (r : Reply c) (h : Handler) → of_client c ≡ true → disposition_step sigterm c r h ≡ h
step-sigterm (sigaction sigterm h' f) r h e = cc
step-sigterm (sigaction sigusr1 h' f) true h e = refl
step-sigterm (sigaction sigalrm h' f) true h e = refl
step-sigterm (sigaction sigchld h' f) true h e = refl
step-sigterm (sigaction x h' f) false h e = refl
step-sigterm c r h e = refl

pub disposition-sigterm :
    (h : Handler) (es : List Event) → Each of_client es → disposition sigterm h es ≡ h
disposition-sigterm h [] g = refl
disposition-sigterm h (e ∷ es) g =
    rw (step-sigterm e.asked e.reply h g.0) (disposition-sigterm h es g.1)

step-sigusr1 :
    (c : Call) (r : Reply c) (h : Handler)
    → of_client c ≡ true
    → (disposition_step sigusr1 c r h ≡ h) ⊎ (disposition_step sigusr1 c r h ≡ handler_sigusr1)
step-sigusr1 (sigaction sigusr1 handler_sigusr1 f) true h e = inr refl
step-sigusr1 (sigaction sigusr1 sig_ign f) true h e = cc
step-sigusr1 (sigaction sigusr1 catch_sigchld f) true h e = cc
step-sigusr1 (sigaction sigusr1 timeout_handler f) true h e = cc
step-sigusr1 (sigaction sigusr1 term_handler f) true h e = cc
step-sigusr1 (sigaction sigalrm h' f) true h e = inl refl
step-sigusr1 (sigaction sigterm h' f) true h e = inl refl
step-sigusr1 (sigaction sigchld h' f) true h e = inl refl
step-sigusr1 (sigaction x h' f) false h e = inl refl
step-sigusr1 c r h e = inl refl

-- SIGUSR1 is ignored, or has the handler of the sending processes: it does not end the process.
abbrev pub IsHarmless : Handler → Type 0
IsHarmless h = (h ≡ sig_ign) ⊎ (h ≡ handler_sigusr1)

pub disposition-IsHarmless :
    (h : Handler) (es : List Event)
    → IsHarmless h
    → Each of_client es
    → IsHarmless (disposition sigusr1 h es)
disposition-IsHarmless h [] i g = i
disposition-IsHarmless h (e ∷ es) i g = elim (step-sigusr1 e.asked e.reply h g.0) [
  | inl same ↦ rw same (disposition-IsHarmless h es i g.1)
  | inr set ↦ rw set (disposition-IsHarmless handler_sigusr1 es (inr refl) g.1)
]

pub calm-of_client : (c : Call) → calm c ≡ true → of_client c ≡ true
calm-of_client (sigaction x h f) e = cc
calm-of_client c e = refl
