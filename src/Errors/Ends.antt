-- ===== src/Errors/Ends.antt =====
-- How the process ends after an error.
use papaya_chat.Base.{◌≢◌, subst, zero, suc, [], ◌∷◌, String, Option, none, some, true, Bytes}
use papaya_chat.Posix.{Kernel, run, Outcome, returned, ended, Exit, exit, abort, getenv, diagnose}
use papaya_chat.Errors.{terminate_by, stop_with}

-- EXIT_FAILURE by exit(3), or a core dump.
abbrev pub IsError : Exit → Type 0
IsError (exit (suc zero)) = Unit
IsError abort = Unit
IsError _ = ⊥

abbrev pub Stops : {A : Type 0} → Outcome A → Type 0
Stops (ended x) = IsError x
Stops _ = ⊥

terminate_by-Stops :
    (A : Type 0) {S : Type 0} (k : Kernel S) (o : Option Bytes) (s : S)
    → Stops (run k (terminate_by true o {A = A}) s).outcome
unfolding terminate_by
terminate_by-Stops A k none s = tt
terminate_by-Stops A k (some []) s = tt
terminate_by-Stops A k (some (c ∷ cs)) s = tt

pub stop_with-Stops :
    (A : Type 0) {S : Type 0} (k : Kernel S) (s : S) (message : String)
    → Stops (run k (stop_with {A = A} message) s).outcome
unfolding stop_with
stop_with-Stops A k s message =
    let s' = (k.answer (diagnose message) s).1 in
    terminate_by-Stops A k (k.answer (getenv "EF_DUMPCORE") s').0
      (k.answer (getenv "EF_DUMPCORE") s').1

pub stop_with-ne :
    (A : Type 0) {S : Type 0} (k : Kernel S) (s : S) (message : String) (a : A)
    → (run k (stop_with {A = A} message) s).outcome ≢ returned a
stop_with-ne A k s message a e = subst Stops e (stop_with-Stops A k s message)
