-- ===== src/Speaking/Enqueue/Aside.antt =====
-- What the queueing of a message leaves alone: the message that is spoken, the paused list, the
-- tables of clients.
use speechd.Base.{ℕ, zero, suc, ◌+◌, arith, Bool-cases, Option-cases, inl, inr}
use speechd.Base.Int.{ℤ, pos, negsuc}
use speechd.Types.{MessageType, Priority}
use speechd.Message.{Message}
use speechd.Server.{State, Ensures}
use speechd.Server.Clients.{get_client_settings_by_fd, get_client_settings_by_uid}
use speechd.Speaking.Enqueue.{
  append_message, enqueue, queue_by_fd, queue_message, is_blank, new_message, old_message,
}
use speechd.Speaking.Priorities.Aside.{
  SameSpeaker, SameSpeaker-refl, resolve_priorities-SameSpeaker,
}

append_message-SameSpeaker :
    (p : Priority) (m : Message) (s : State) → SameSpeaker s (append_message p m s)
unfolding append_message
append_message-SameSpeaker p m s = ground arith

enqueue-SameSpeaker : (p : Priority) (m : Message) (s : State) → SameSpeaker s (enqueue p m s)
unfolding enqueue
enqueue-SameSpeaker p m s = ground (
  arith,
  append_message-SameSpeaker p m s,
  resolve_priorities-SameSpeaker p (append_message p m s),
)

numbered :
    (s : State) {n : ℕ} {t : State}
    → SameSpeaker (record s { last_message_id = n }) t
    → SameSpeaker s t
numbered s h = record {
  paused = h.paused;
  current = h.current;
  uids = h.uids;
  settings = h.settings;
  speaking = h.speaking;
  speaker = h.speaker;
  uid = h.uid;
  highest = h.highest;
}

abbrev pub SpeakerAfter : State → ℤ × State → Type 0
SpeakerAfter s r = SameSpeaker s r.1

queue_by_fd-SameSpeaker :
    (fd : ℤ) (m : Message) (type : MessageType) (reparted : ℕ) (s : State)
    → Ensures (SpeakerAfter s) (queue_by_fd fd m type reparted s)
unfolding queue_by_fd
queue_by_fd-SameSpeaker (pos zero) m type reparted s = SameSpeaker-refl s
queue_by_fd-SameSpeaker (pos (suc n)) m type reparted s =
    elim (Option-cases (get_client_settings_by_fd s (suc n))) [
      | inl e ↦ rw (e, queue_by_fd) tt
      | inr (c, e) ↦
          rw (e, queue_by_fd)
            (numbered s (
              enqueue-SameSpeaker c.priority (new_message m c type reparted s)
                (record s { last_message_id = s.last_message_id + 1 })))
    ]
queue_by_fd-SameSpeaker (negsuc n) m type reparted s =
    elim (Option-cases (get_client_settings_by_uid s (suc n))) [
      | inl e ↦ rw (e, queue_by_fd) tt
      | inr (c, e) ↦ rw (e, queue_by_fd) (enqueue-SameSpeaker c.priority (old_message m reparted) s)
    ]

pub queue_message-SameSpeaker :
    (fd : ℤ) (m : Message) (type : MessageType) (reparted : ℕ) (s : State)
    → Ensures (SpeakerAfter s) (queue_message m fd type reparted s)
unfolding queue_message
queue_message-SameSpeaker fd m type reparted s = elim (Bool-cases (is_blank m.buf)) [
  | inl e ↦ rw e (SameSpeaker-refl s)
  | inr e ↦ rw e (queue_by_fd-SameSpeaker fd m type reparted s)
]
