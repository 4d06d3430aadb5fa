-- ===== src/ChatLog/Locks.antt =====
-- The lock on the chat log: which paths release it.
use papaya_chat.Base.{
  ℕ, zero, suc, ◌≡◌, refl, ap, ◌⊎◌, [], ◌∷◌, Option, none, some, true, false, Bytes, length, take,
  append-nil, arith,
}
use papaya_chat.Posix.{
  Kernel, run, returned, LockOp, lock_sh, lock_ex, lock_un, sigusr1, write, lseek_set, lseek_end,
  malloc, Block, flock, kill,
}
use papaya_chat.Posix.Monitor.{lock_of, written, signals}
use papaya_chat.ChatLog.{
  wrote, working_offset, max_characters_back_client, exclusive_write,
  messages_from_first_client_connection, from_last_byte, read_text, send_text, unlock_and_return,
}

pub take-length : (l : Bytes) → take (length l) l ≡ l
take-length [] = refl
take-length (a ∷ l) = ap (◌∷◌ a) (take-length l)

module _ {S : Type 0} (k : Kernel S) (s : S) (fd : ℕ) (string : Bytes) where
  -- `exclusiveWrite` returns 0 only if the whole message is in the file, the process group was sent
  -- SIGUSR1 once, and the lock is released.
  pub exclusive_write-done :
      (run k (exclusive_write fd string) s).outcome ≡ returned true
      → let t = (run k (exclusive_write fd string) s).trace in
        (written fd t ≡ string) × (signals 0 sigusr1 t ≡ tt ∷ []) × (lock_of fd lock_un t ≡ lock_un)
  unfolding exclusive_write
  exclusive_write-done h = ground (arith, take-length string, append-nil string)

  -- If the lock is taken and then the write falls short or the signal cannot be sent,
  -- `exclusiveWrite` returns -1 and leaves the exclusive lock held.
  exclusive_write-keeps_lock :
      (k.answer (flock fd lock_ex) s).0 ≡ true
      → (wrote string (k.answer (write fd string) (k.answer (flock fd lock_ex) s).1).0 ≡ false)
        ⊎ ((k.answer
              (kill 0 sigusr1)
              (k.answer (write fd string) (k.answer (flock fd lock_ex) s).1).1).0
            ≡ false)
      → let r = run k (exclusive_write fd string) s in
        (r.outcome ≡ returned false) × (lock_of fd lock_un r.trace ≡ lock_ex)
  unfolding exclusive_write
  exclusive_write-keeps_lock h e = ground arith

module _ {S : Type 0} (k : Kernel S) (fd client_fd : ℕ)
    (unlocks : (s : S) → (k.answer (flock fd lock_un) s).0 ≡ true) where
  unlock_and_return-lock_un :
      (s : S) (r : Option ℕ) (held : LockOp)
      → lock_of fd held (run k (unlock_and_return fd r) s).trace ≡ lock_un
  unfolding unlock_and_return
  unlock_and_return-lock_un s r held = ground (arith, unlocks s)

  send_text-lock_un :
      (s : S) (last_byte b : ℕ) (o : Option Bytes) (held : LockOp)
      → lock_of fd held (run k (send_text fd client_fd last_byte b o) s).trace ≡ lock_un
  unfolding send_text
  send_text-lock_un s last_byte b none held = grind (arith, unlocks)
  send_text-lock_un s last_byte b (some bytes) held = grind (arith, unlocks)

  read_text-lock_un :
      (s : S) (last_byte : ℕ) (o : Option Block) (held : LockOp)
      → lock_of fd held (run k (read_text fd client_fd last_byte o) s).trace ≡ lock_un
  unfolding read_text
  read_text-lock_un s last_byte none held = grind (arith, unlocks)
  read_text-lock_un s last_byte (some b) held = send_text-lock_un _ last_byte b.addr _ held

  from_last_byte-lock_un :
      (s : S) (o : Option ℕ) (held : LockOp)
      → lock_of fd held (run k (from_last_byte fd client_fd o) s).trace ≡ lock_un
  unfolding from_last_byte
  from_last_byte-lock_un s none held = grind (arith, unlocks)
  from_last_byte-lock_un s (some zero) held = grind (arith, unlocks)
  from_last_byte-lock_un s (some (suc last_byte)) held = ground (
    arith,
    unlock_and_return-lock_un (k.answer (lseek_set fd (working_offset last_byte)) s).1 none held,
    read_text-lock_un
        (k.answer (malloc max_characters_back_client)
          (k.answer (lseek_set fd (working_offset last_byte)) s).1).1
        last_byte
        (k.answer (malloc max_characters_back_client)
          (k.answer (lseek_set fd (working_offset last_byte)) s).1).0
        held,
  )

  -- If unlocking never fails, then `messagesFromFirstClientConnection` holds no lock when it
  -- returns, on every path: errors of lseek, malloc, read and write included.
  pub messages_from_first_client_connection-lock_un :
      (s : S)
      → lock_of fd lock_un (run k (messages_from_first_client_connection fd client_fd) s).trace
        ≡ lock_un
  unfolding messages_from_first_client_connection
  messages_from_first_client_connection-lock_un s = ground (
    arith,
    from_last_byte-lock_un (k.answer (lseek_end fd) (k.answer (flock fd lock_sh) s).1).1
        (k.answer (lseek_end fd) (k.answer (flock fd lock_sh) s).1).0 lock_sh,
  )
