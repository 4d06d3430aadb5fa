-- ===== src/ClientRequest/LostSignal.antt =====
-- The signal that comes between the read of the chat log and pause(2): its handler sets a flag that
-- nothing reads.
use papaya_chat.Posix.Group.{Group}
