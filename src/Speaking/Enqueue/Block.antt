-- ===== src/Speaking/Enqueue/Block.antt =====
-- The saved block of progress messages (`last_p5_block`) is always one block.
use speechd.Base.{
  ℕ, zero, suc, ◌+◌, ◌≡◌, ◌≢◌, refl, none, List, All, Bool-cases, Option-cases, inl, inr,
}
use speechd.Base.Int.{ℤ, pos, negsuc}
use speechd.Types.{MessageType}
use speechd.Message.{Message}
use speechd.Server.{State, done}
use speechd.Server.Clients.{get_client_settings_by_fd, get_client_settings_by_uid}
use speechd.Speaking.Enqueue.{
  is_blank, new_message, old_message, enqueue, queue_by_fd, queue_message,
}

-- All messages carry one block number.
abbrev pub IsBlock : List Message → Type 0
IsBlock block = (gid : ℕ) × All (λ m. m.settings.reparted ≡ gid) block

abbrev BlockAfter : ℤ × State → Type 0
BlockAfter r = IsBlock r.1.last_p5_block

-- The client that `fd` stands for in `queue_message` has settings.
abbrev pub HasClient : ℤ → State → Type 0
HasClient (pos zero) s = Unit
HasClient (pos (suc n)) s = get_client_settings_by_fd s (suc n) ≢ none
HasClient (negsuc n) s = get_client_settings_by_uid s (suc n) ≢ none

queue_by_fd-returns :
    (fd : ℤ) (m : Message) (type : MessageType) (reparted : ℕ) (s : State)
    → HasClient fd s
    → (r : ℤ × State) × (queue_by_fd fd m type reparted s ≡ done r)
unfolding queue_by_fd
queue_by_fd-returns (pos zero) m type reparted s h = (_, refl)
queue_by_fd-returns (pos (suc n)) m type reparted s h =
    elim (Option-cases (get_client_settings_by_fd s (suc n))) [
      | inl e ↦ absurd (h e)
      | inr (c, e) ↦ (
        (
          pos (s.last_message_id + 1),
          enqueue c.priority (new_message m c type reparted s)
              (record s { last_message_id = s.last_message_id + 1 }),
        ),
        rw (e, queue_by_fd) refl,
      )
    ]
queue_by_fd-returns (negsuc n) m type reparted s h =
    elim (Option-cases (get_client_settings_by_uid s (suc n))) [
      | inl e ↦ absurd (h e)
      | inr (c, e) ↦
          ((pos m.id, enqueue c.priority (old_message m reparted) s), rw (e, queue_by_fd) refl)
    ]

pub queue_message-returns :
    (fd : ℤ) (m : Message) (type : MessageType) (reparted : ℕ) (s : State)
    → HasClient fd s
    → (r : ℤ × State) × (queue_message m fd type reparted s ≡ done r)
unfolding queue_message
queue_message-returns fd m type reparted s h = elim (Bool-cases (is_blank m.buf)) [
  | inl e ↦ ((negsuc 0, s), rw (e, queue_message) refl)
  | inr e ↦ let (r, q) = queue_by_fd-returns fd m type reparted s h in (r, rw (e, queue_message) q)
]
