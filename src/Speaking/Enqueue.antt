-- ===== src/Speaking/Enqueue.antt =====
-- src/server/server.c: `queue_message`, which puts a message into the queue of its priority.
pub mod Kept
pub mod Block
pub mod Aside
use speechd.Base.{
  ℕ, zero, suc, ◌+◌, ◌==◌, Bool, true, false, not, Option, none, some, List, [], ◌∷◌, ◌++◌, last?,
  if◌then◌else◌,
}
use speechd.Base.Int.{ℤ, pos, negsuc}
use speechd.Types.{
  Priority, important, message, text, notification, progress, MessageType, msg_text, data_text,
}
use speechd.Message.{Message, Settings}
use speechd.Server.{State, emit, post, Run, done, fault, fatal, null_pointer}
use speechd.Server.Clients.{get_client_settings_by_fd, get_client_settings_by_uid}
use speechd.Speaking.Priorities.{speaking_get_queue, speaking_set_queue, resolve_priorities}

-- `strlen(buf) < 1`
unfoldable pub is_blank : List ℕ → Bool
is_blank [] = true
is_blank (c ∷ buf) = c == 0

is_text : MessageType → Bool
is_text msg_text = true
is_text _ = false

-- The settings of a new message are those of its client, adjusted.
unfoldable pub message_settings : Settings → MessageType → ℕ → Settings
unfolding is_text
message_settings c type reparted = record c {
  type = type;
  paused_while_speaking = false;
  ssml_mode = if is_text type then c.ssml_mode else data_text;
  reparted = reparted;
}

-- The message that is queued for a positive `fd`.
unfoldable pub new_message : Message → Settings → MessageType → ℕ → State → Message
unfolding message_settings
new_message m c type reparted s = record m {
  id = s.last_message_id + 1;
  settings = message_settings c type reparted;
}

-- The message that is queued again.
pub old_message : Message → ℕ → Message
old_message m reparted = record m { settings = record (m.settings) { reparted = reparted } }

-- `last_p5_block` after a message of priority progress: its copy is added to the block, and a block
-- of another number is freed first. The copy has an address of its own.
pub extend_block : ℕ → List Message → Message → List Message
extend_block addr block m = elim (last? block) [
  | none ↦ record m { addr = addr } ∷ []
  | some x ↦
      if x.settings.reparted == m.settings.reparted
      then block ++ (record m { addr = addr } ∷ [])
      else record m { addr = addr } ∷ []
]

-- The `switch` on the priority.
append_message : Priority → Message → State → State
unfolding extend_block
append_message progress m s =
    record (speaking_set_queue progress (speaking_get_queue progress s ++ (m ∷ [])) s) {
      last_p5_block = extend_block s.next_addr s.last_p5_block m;
      next_addr = suc s.next_addr;
    }
append_message p m s = speaking_set_queue p (speaking_get_queue p s ++ (m ∷ [])) s

-- From the lock to the end.
enqueue : Priority → Message → State → State
unfolding append_message
enqueue p m s = emit (post ∷ []) (resolve_priorities p (append_message p m s))

-- The rest of `queue_message`, for a text that is not empty: `fd` is positive for a new message of
-- the client on that descriptor, and the negated uid of the client for a message queued again.
queue_by_fd : ℤ → Message → MessageType → ℕ → State → Run (ℤ × State)
unfolding enqueue
queue_by_fd (pos zero) m type reparted s = done (negsuc 0, s)
queue_by_fd (pos (suc n)) m type reparted s = elim (get_client_settings_by_fd s (suc n)) [
  | none ↦ fault fatal
  | some c ↦
      let new = new_message m c type reparted s in
      done (
        pos (s.last_message_id + 1),
        enqueue c.priority new (record s { last_message_id = s.last_message_id + 1 }),
      )
]
queue_by_fd (negsuc n) m type reparted s = elim (get_client_settings_by_uid s (suc n)) [
  | none ↦ fault null_pointer
  | some c ↦ done (pos m.id, enqueue c.priority (old_message m reparted) s)
]

-- The result is the id of the message, or -1.
unfoldable pub queue_message : Message → ℤ → MessageType → ℕ → State → Run (ℤ × State)
unfolding queue_by_fd
queue_message m fd type reparted s =
    if is_blank m.buf then done (negsuc 0, s) else queue_by_fd fd m type reparted s
