-- ===== src/Screen/Fetching.antt =====
-- printMessagesFromServer does not touch the line that is typed.
use papaya_chat.Base.{
  String, ℕ, ◌≡◌, refl, [], ◌∷◌, Option, none, some, true, false, Bytes, ◌==◌, ltb, inl, inr,
  Bool-cases,
}
use papaya_chat.Posix.{Block}
use papaya_chat.Posix.Only.{Only-bind}
use papaya_chat.Errors.{stop_with, terminate, terminate_by}
use papaya_chat.Messages.{fetch_message}
use papaya_chat.Screen.{
  Chat, fetch, print_messages_from_server, fetch_and_show, show_message, wrap_text,
}
use papaya_chat.Screen.Window.{Quiet, is_quiet}

terminate_by-Quiet : (A : Type 0) (w : ℕ) (o : Option Bytes) → Quiet w (terminate_by true o {A = A})
unfolding terminate_by
terminate_by-Quiet A w none = tt
terminate_by-Quiet A w (some []) = tt
terminate_by-Quiet A w (some (c ∷ cs)) = tt

stop_with-Quiet : (A : Type 0) (w : ℕ) (message : String) → Quiet w (stop_with {A = A} message)
unfolding stop_with terminate
stop_with-Quiet A w message = (refl, λ r. (refl, λ o. terminate_by-Quiet A w o))

wrap_text-Quiet :
    (w window max_y : ℕ) (o : Option ℕ) → (w == window) ≡ false → Quiet w (wrap_text window max_y o)
unfolding wrap_text
wrap_text-Quiet w window max_y none other = stop_with-Quiet (Unit {0}) w _
wrap_text-Quiet w window max_y (some y) other = elim (Bool-cases (ltb max_y y)) [
  | inl e ↦
      rw (e, other)
        (
          refl,
          elim [
            | true ↦
                (rw other refl, elim [ true ↦ tt | false ↦ stop_with-Quiet (Unit {0}) w "wmove" ])
            | false ↦ stop_with-Quiet (Unit {0}) w "wclear"
          ],
        )
  | inr e ↦ rw e tt
]

show_message-Quiet :
    (w window max_y : ℕ) (b : Block) (o : Option Bytes)
    → (w == window) ≡ false
    → Quiet w (show_message window max_y b o)
unfolding show_message
show_message-Quiet w window max_y b none other = tt
show_message-Quiet w window max_y b (some []) other = tt
show_message-Quiet w window max_y b (some (c ∷ bytes)) other = (
  refl,
  λ y.
      Only-bind (is_quiet w) _ _ (wrap_text-Quiet w window max_y y other)
        (λ _. (rw other refl, λ _. (refl, λ _. tt))),
)

fetch_and_show-Quiet :
    (w window pipe_fd max_y : ℕ) (o : Option Block)
    → (w == window) ≡ false
    → Quiet w (fetch_and_show window pipe_fd max_y o)
unfolding fetch_and_show fetch_message
fetch_and_show-Quiet w window pipe_fd max_y none other = stop_with-Quiet (Unit {0}) w _
fetch_and_show-Quiet w window pipe_fd max_y (some b) other = (
  refl,
  λ bytes.
      Only-bind (is_quiet w) _ _ (show_message-Quiet w window max_y b bytes other)
        (λ _. (refl, λ _. tt)),
)

-- A round of fetching leaves the other windows alone, writes nothing and takes no key.
pub fetch-Quiet : (w : ℕ) (c : Chat) → (w == c.text_window) ≡ false → Quiet w (fetch c)
unfolding fetch print_messages_from_server
fetch-Quiet w c other =
    (refl, λ o. fetch_and_show-Quiet w c.text_window c.receive_fd c.max_y o other)
