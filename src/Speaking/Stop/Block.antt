-- ===== src/Speaking/Stop/Block.antt =====
-- What stopping the speaking client takes out of the queue, and where it ends the server.
use speechd.Base.{
  ◌==◌, ne→==, ◌≡◌, ◌≢◌, ◌⊎◌, refl, ap, Bool, false, none, some, List, last?, ◌∙◌, Bool-cases,
  Option-cases, inl, inr,
}
use speechd.Types.{Priority, important}
use speechd.Server.Output.{output_stop}
use speechd.Server.Output.Frame.{output_stop-SameQueues}
use speechd.Message.{Message}
use speechd.Server.{State, done, fault, assertion}
use speechd.Speaking.Priorities.{speaking_get_queue, speaking_set_queue}
use speechd.Speaking.Stop.{trim_last, trim, asserted_priority, stop_all_block, speaking_stop_all}
use speechd.Speaking.Stop.Trim.{output_stop-get}

pub asserted_cases :
    (s : State)
    → ((asserted_priority s ≡ fault assertion) × (s.highest_priority ≡ none))
      ⊎ ((p : Priority) × (asserted_priority s ≡ done p) × (s.highest_priority ≡ some p))
unfolding asserted_priority
asserted_cases s = elim (Option-cases s.highest_priority) [
  | inl e ↦ inl (rw (e, asserted_priority), e)
  | inr (p, e) ↦ inr (p, rw (e, asserted_priority), e)
]

pub asserted_some :
    (s : State) (p : Priority) → s.highest_priority ≡ some p → asserted_priority s ≡ done p
unfolding asserted_priority
asserted_some s p e = rw (e, asserted_priority)

trim_same :
    (test : Message → Bool) (queue : List Message) (m : Message)
    → last? queue ≡ some m
    → test m ≡ false
    → trim test queue ≡ queue
unfolding trim trim_last
trim_same test queue m last miss = rw (last, trim_last, miss)

set-get_same : (p : Priority) (s : State) → speaking_set_queue p (speaking_get_queue p s) s ≡ s
set-get_same important s = refl
set-get_same p s = refl

stop_all_block_keeps :
    (s : State) (p : Priority) (m : Message)
    → last? (speaking_get_queue p s) ≡ some m
    → m.settings.reparted ≢ 1
    → stop_all_block p s ≡ s
unfolding stop_all_block
stop_all_block_keeps s p m last block =
    let same =
      trim_same (λ x. x.settings.reparted == 1) (speaking_get_queue p s) m last (ne→== _ _ block) in
    elim (Bool-cases (m.settings.reparted == 0)) [
      | inl single ↦ rw (last, stop_all_block, single)
      | inr block ↦ rw (last, stop_all_block, block, same) (set-get_same p s)
    ]

-- `STOP ALL` does not stop a block whose number is not 1: all its queued messages stay, and so do
-- all other messages.
pub speaking_stop_all_keeps :
    (s : State) (p : Priority) (m : Message)
    → s.highest_priority ≡ some p
    → last? (speaking_get_queue p s) ≡ some m
    → m.settings.reparted ≢ 1
    → (t : State) × (speaking_stop_all s ≡ done t)
      × ((q : Priority) → speaking_get_queue q t ≡ speaking_get_queue q s)
unfolding speaking_stop_all
speaking_stop_all_keeps s p m highest last block = (
  output_stop s,
  simp (
    asserted_some (output_stop s) p ((output_stop-SameQueues s).highest ∙ highest),
    stop_all_block_keeps (output_stop s) p m (ap (λ l. last? l) (output_stop-get p s) ∙ last) block,
  ),
  λ q. output_stop-get q s,
)
