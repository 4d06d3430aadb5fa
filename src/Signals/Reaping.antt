-- ===== src/Signals/Reaping.antt =====
-- The handler of SIGCHLD.
use papaya_chat.Base.{ℕ, zero, suc, ◌<◌, ◌≡◌, refl, ◌⊎◌, inl, inr, none, some, arith}
use papaya_chat.Posix.Runs.{run-bind}
use papaya_chat.Posix.{Kernel, Run, run, returned, waitpid_any}
use papaya_chat.Signals.{reap, catch_sigchld_handler}

-- A kernel with children that have ended and wait to be collected: waitpid(2) with WNOHANG collects
-- one of them, and says so by a pid, which is not 0; without one, the result is 0 or -1. What the
-- call does to errno is left open.
pub record Collects {S : Type 0} (k : Kernel S) (waiting : S → ℕ) : Type 0 where
  pub one :
      (s : S) (n : ℕ)
      → waiting s ≡ suc n
      → (pid : ℕ) × ((k.answer waitpid_any s).0.result ≡ some (suc pid))
        × (waiting (k.answer waitpid_any s).1 ≡ n)
  pub none_left :
      (s : S)
      → waiting s ≡ 0
      → (((k.answer waitpid_any s).0.result ≡ none) ⊎ ((k.answer waitpid_any s).0.result ≡ some 0))
        × (waiting (k.answer waitpid_any s).1 ≡ 0)

module _ {S : Type 0} (k : Kernel S) (waiting : S → ℕ) (collects : Collects k waiting) where
  -- It returns, whatever errno is then, and no child waits.
  abbrev HasReaped : Run ℕ S → Type 0
  HasReaped r = ((errno : ℕ) × (r.outcome ≡ returned errno)) × (waiting r.final ≡ 0)

  reap_all : (rounds n : ℕ) (s : S) → waiting s ≡ n → n < rounds → HasReaped (run k (reap rounds) s)
  unfolding reap
  reap_all zero n s e h = elim h [ ]
  reap_all (suc rounds) zero s e h =
      let errno = (k.answer waitpid_any s).0.errno in
      let (last, left) = collects.none_left s e in
      elim last [
        | inl none_waits ↦ rw none_waits ((errno, refl), left)
        | inr nobody ↦ rw nobody ((errno, refl), left)
      ]
  reap_all (suc rounds) (suc n) s e h =
      let (pid, took, left) = collects.one s n e in
      rw took (reap_all rounds n (k.answer waitpid_any s).1 left (omega arith))

  -- On a kernel that lets one child be collected at a time (`Collects`), and whatever waitpid(2)
  -- makes of errno: the handler of SIGCHLD returns within one round more than there are children
  -- waiting. Then it has collected all of them, although several may have ended for one signal, and
  -- errno has the value that it had before the signal.
  pub catch_sigchld_handler_reaps :
      (rounds errno : ℕ) (s : S)
      → waiting s < rounds
      → let r = run k (catch_sigchld_handler rounds errno) s in
        (r.outcome ≡ returned errno) × (waiting r.final ≡ 0)
  unfolding catch_sigchld_handler
  catch_sigchld_handler_reaps rounds errno s h =
      let ((changed, ends_with), left) = reap_all rounds (waiting s) s refl h in
      rw (run-bind k (reap rounds) _ s, ends_with) (refl, left)
