-- ===== src/ChatLog/Live.antt =====
-- The functions of the chat log end by themselves, whatever the kernel replies.
use papaya_chat.Base.{ℕ, zero, suc, refl, Option, none, some, true, false, Bytes}
use papaya_chat.Posix.{Block}
use papaya_chat.Posix.Live.{Live, if_not-Live}
use papaya_chat.ChatLog.{
  wrote, exclusive_write, shared_read, unlock_after_read, unlock_and_return, text_to_send,
  send_text, read_text, from_last_byte, messages_from_first_client_connection,
}

pub exclusive_write-Live : (fd : ℕ) (text : Bytes) → Live (exclusive_write fd text)
unfolding exclusive_write
exclusive_write-Live fd text = (
  refl,
  elim [
    | true ↦ (
      refl,
      λ done.
          if_not-Live (wrote text done) _ _ tt
            (refl, elim [ true ↦ (refl, elim [ true ↦ tt | false ↦ tt ]) | false ↦ tt ]),
    )
    | false ↦ tt
  ],
)

unlock_after_read-Live : (fd : ℕ) (o : Option Bytes) → Live (unlock_after_read fd o)
unfolding unlock_after_read
unlock_after_read-Live fd none = tt
unlock_after_read-Live fd (some bytes) = (refl, elim [ true ↦ tt | false ↦ tt ])

pub shared_read-Live : (fd size offset : ℕ) → Live (shared_read fd size offset)
unfolding shared_read
shared_read-Live fd size offset = (
  refl,
  elim [
    | true ↦ (refl, elim [ true ↦ (refl, λ bytes. unlock_after_read-Live fd bytes) | false ↦ tt ])
    | false ↦ tt
  ],
)

unlock_and_return-Live : (fd : ℕ) (o : Option ℕ) → Live (unlock_and_return fd o)
unfolding unlock_and_return
unlock_and_return-Live fd o = (refl, elim [ true ↦ tt | false ↦ tt ])

module _ (fd client_fd last_byte : ℕ) where
  send_text-Live : (block : ℕ) (o : Option Bytes) → Live (send_text fd client_fd last_byte block o)
  unfolding send_text
  send_text-Live block none = (refl, λ r. unlock_and_return-Live fd none)
  send_text-Live block (some bytes) = (
    refl,
    λ sent. (
      refl,
      λ r.
          if_not-Live (wrote (text_to_send bytes) sent) _ _ (unlock_and_return-Live fd none)
            (unlock_and_return-Live fd _),
    ),
  )

  read_text-Live : (o : Option Block) → Live (read_text fd client_fd last_byte o)
  unfolding read_text
  read_text-Live none = unlock_and_return-Live fd none
  read_text-Live (some block) = (refl, send_text-Live block.addr)

from_last_byte-Live : (fd client_fd : ℕ) (o : Option ℕ) → Live (from_last_byte fd client_fd o)
unfolding from_last_byte
from_last_byte-Live fd client_fd none = unlock_and_return-Live fd none
from_last_byte-Live fd client_fd (some zero) = unlock_and_return-Live fd (some 0)
from_last_byte-Live fd client_fd (some (suc last_byte)) = (
  refl,
  elim [
    | true ↦ (refl, read_text-Live fd client_fd last_byte)
    | false ↦ unlock_and_return-Live fd none
  ],
)

pub messages_from_first_client_connection-Live :
    (fd client_fd : ℕ) → Live (messages_from_first_client_connection fd client_fd)
unfolding messages_from_first_client_connection
messages_from_first_client_connection-Live fd client_fd =
    (refl, elim [ true ↦ (refl, from_last_byte-Live fd client_fd) | false ↦ tt ])
