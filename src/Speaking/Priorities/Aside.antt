-- ===== src/Speaking/Priorities/Aside.antt =====
-- What the priority rules, and the queueing of a message, leave alone: the message that is spoken, the
-- paused list, the tables of clients.
use speechd.Base.{
  ℕ, ◌≡◌, not, ◌&&◌, last?, drop_last, if◌then◌else◌, arith, ◌∙◌, Option-cases, inl, inr,
}
use speechd.Types.{Priority, important, message, text, notification, progress}
use speechd.Message.{Message}
use speechd.Server.{State}
use speechd.Server.Output.{output_stop}
use speechd.Speaking.Priorities.{
  is_highest, speaking_get_queue, speaking_set_queue, stop_priority, stop_priority_older_than,
  except_first_of, stop_priority_except_first, keep_last_progress, resolve_priorities,
}

pub record SameSpeaker (s t : State) : Type 0 where
  pub paused : t.paused_list ≡ s.paused_list
  pub current : t.current_message ≡ s.current_message
  pub uids : t.fd_uid ≡ s.fd_uid
  pub settings : t.fd_settings ≡ s.fd_settings
  pub speaking : t.speaking ≡ s.speaking
  pub speaker : t.speaking_module ≡ s.speaking_module
  pub uid : t.speaking_uid ≡ s.speaking_uid
  pub highest : t.highest_priority ≡ s.highest_priority

pub SameSpeaker-refl : (s : State) → SameSpeaker s s
SameSpeaker-refl s = ground arith

pub SameSpeaker-trans : {s t u : State} → SameSpeaker s t → SameSpeaker t u → SameSpeaker s u
SameSpeaker-trans h k = record {
  paused = k.paused ∙ h.paused;
  current = k.current ∙ h.current;
  uids = k.uids ∙ h.uids;
  settings = k.settings ∙ h.settings;
  speaking = k.speaking ∙ h.speaking;
  speaker = k.speaker ∙ h.speaker;
  uid = k.uid ∙ h.uid;
  highest = k.highest ∙ h.highest;
}

output_stop-SameSpeaker : (s : State) → SameSpeaker s (output_stop s)
unfolding output_stop
output_stop-SameSpeaker s = ground arith

pub stop_priority-SameSpeaker : (p : Priority) (s : State) → SameSpeaker s (stop_priority p s)
unfolding stop_priority
stop_priority-SameSpeaker p s = ground (arith, output_stop-SameSpeaker s)

pub stop_priority_older_than-SameSpeaker :
    (p : Priority) (uid : ℕ) (s : State) → SameSpeaker s (stop_priority_older_than p uid s)
unfolding stop_priority_older_than
stop_priority_older_than-SameSpeaker p uid s = ground (arith, output_stop-SameSpeaker s)

except_first_of-SameSpeaker :
    (p : Priority) (m : Message) (s : State) → SameSpeaker s (except_first_of p m s)
unfolding except_first_of
except_first_of-SameSpeaker p m s = ground (
  arith,
  output_stop-SameSpeaker s,
  stop_priority-SameSpeaker p (speaking_set_queue p (drop_last (speaking_get_queue p s)) s),
)

except_first-SameSpeaker :
    (p : Priority) (s : State) → SameSpeaker s (stop_priority_except_first p s)
unfolding stop_priority_except_first
except_first-SameSpeaker p s = elim (Option-cases (last? (speaking_get_queue p s))) [
  | inl e ↦ rw (e, stop_priority_except_first) (SameSpeaker-refl s)
  | inr (m, e) ↦ rw (e, stop_priority_except_first) (except_first_of-SameSpeaker p m s)
]

keep_last_progress-SameSpeaker : (s : State) → SameSpeaker s (keep_last_progress s)
unfolding keep_last_progress
keep_last_progress-SameSpeaker s = ground arith

pub resolve_priorities-SameSpeaker :
    (p : Priority) (s : State) → SameSpeaker s (resolve_priorities p s)
unfolding resolve_priorities
resolve_priorities-SameSpeaker important s =
    let t = if s.speaking && not (is_highest important s) then output_stop s else s in
    ground (
      arith,
      output_stop-SameSpeaker s,
      stop_priority-SameSpeaker notification t,
      stop_priority-SameSpeaker progress (stop_priority notification t),
    )
resolve_priorities-SameSpeaker message s =
    let t =
      if s.speaking && (not (is_highest important s) && not (is_highest message s))
      then output_stop s
      else s in
    ground (
      arith,
      output_stop-SameSpeaker s,
      stop_priority-SameSpeaker text t,
      stop_priority-SameSpeaker notification (stop_priority text t),
      stop_priority-SameSpeaker progress (stop_priority notification (stop_priority text t)),
    )
resolve_priorities-SameSpeaker text s =
    let t = stop_priority_except_first text s in
    ground (
      arith,
      except_first-SameSpeaker text s,
      stop_priority-SameSpeaker notification t,
      stop_priority-SameSpeaker progress (stop_priority notification t),
    )
resolve_priorities-SameSpeaker notification s =
    let t = stop_priority_except_first notification s in
    ground
      (arith, except_first-SameSpeaker notification s, stop_priority-SameSpeaker notification t)
resolve_priorities-SameSpeaker progress s =
    let t = stop_priority notification s in
    ground (arith, stop_priority-SameSpeaker notification s, keep_last_progress-SameSpeaker t)
