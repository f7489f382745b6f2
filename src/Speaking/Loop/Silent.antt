-- ===== src/Speaking/Loop/Silent.antt =====
-- src/server/speaking.c: what holds while nothing is spoken, kept by the parts of a round of speak()
-- that take no message.
use speechd.Base.{
  ℕ, zero, suc, ◌≡◌, true, false, some, List, [], length, get_elem?, remove_at, arith, refl, ◌∙◌,
  Option-cases, inl, inr,
}
use speechd.Types.{message, text, notification, progress}
use speechd.Message.{Message}
use speechd.Server.{State, Ensures, Ensures-bind, Ensures-map}
use speechd.Speaking.Priorities.{speaking_set_queue, stop_priority, stop_priority_older_than}
use speechd.Speaking.Priorities.Aside.{
  SameSpeaker, stop_priority-SameSpeaker, stop_priority_older_than-SameSpeaker,
}
use speechd.Speaking.Spoken.{is_some, IsSpoken}
use speechd.Speaking.Reload.{resume, resume_loop, forget_current, find_resumable, reload_message}
use speechd.Speaking.Reload.Returns.{reload_message-SameSpeaker}
use speechd.Speaking.Loop.{move_block, postponed}

-- Nothing is spoken.
pub record IsSilent (s : State) : Type 0 where
  pub silent : s.speaking ≡ false
  pub chosen : is_some s.current_message ≡ true → is_some s.highest_priority ≡ true

pub silent-IsSpoken : {s : State} → IsSilent s → IsSpoken s
silent-IsSpoken h = record {
  chosen = h.chosen;
  current = λ e. ground (arith, h.silent, e);
  by_module = λ e. ground (arith, h.silent, e);
}

silenced : {s t : State} → SameSpeaker s t → IsSilent s → IsSilent t
silenced k h = record {
  silent = k.speaking ∙ h.silent;
  chosen = λ e. ground (arith, e, k.current, k.highest, h.chosen);
}

pub postponed-IsSilent : (m : Message) (s : State) → IsSilent s → IsSilent (postponed m s)
unfolding postponed
postponed-IsSilent m s h =
    let a = record (speaking_set_queue message (move_block s.last_p5_block s.queues.p2) s) {
      last_p5_block = [];
      highest_priority = some message;
    } in
    let b = stop_priority_older_than text m.id a in
    let c = stop_priority notification b in
    let k : IsSilent a = record { silent = h.silent; chosen = λ e. refl } in
    let l : IsSilent (stop_priority progress c) = silenced (stop_priority-SameSpeaker progress c) (
      silenced (stop_priority-SameSpeaker notification b)
        (silenced (stop_priority_older_than-SameSpeaker text m.id a) k)) in
    record { silent = l.silent; chosen = l.chosen }

forget_current-IsSilent : (m : Message) (s : State) → IsSilent s → IsSilent (forget_current m s)
unfolding forget_current
forget_current-IsSilent m s h = record {
  silent = ground (arith, h.silent);
  chosen = λ e. ground (arith, e, h.chosen);
}

reload_message-IsSilent :
    (m : Message) (s : State)
    → IsSilent s
    → Ensures (λ r. IsSilent (forget_current m r.1)) (reload_message m s)
reload_message-IsSilent m s h =
    Ensures-map (reload_message m s) (λ r k. forget_current-IsSilent m r.1 (silenced k h))
      (reload_message-SameSpeaker m s)

without : {s : State} {l : List Message} → IsSilent s → IsSilent (record s { paused_list = l })
without h = record { silent = h.silent; chosen = h.chosen }

resume_loop-IsSilent : (fuel : ℕ) (s : State) → IsSilent s → Ensures IsSilent (resume_loop fuel s)
unfolding resume_loop
resume_loop-IsSilent zero s h = h
resume_loop-IsSilent (suc fuel) s h = elim (Option-cases (find_resumable s)) [
  | inl e ↦ rw (e, resume_loop) h
  | inr (i, e) ↦ elim (Option-cases (get_elem? s.paused_list i)) [
    | inl f ↦ rw (e, resume_loop, f) h
    | inr (m, f) ↦
        rw (e, resume_loop, f)
          (Ensures-bind IsSilent
            (reload_message m (record s { paused_list = remove_at i s.paused_list })) _
            (reload_message-IsSilent m _ (without h))
            (λ r k. resume_loop-IsSilent fuel (forget_current m r.1) k))
  ]
]

pub resume-IsSilent : (s : State) → IsSilent s → Ensures IsSilent (resume s)
unfolding resume
resume-IsSilent s h =
    Ensures-bind IsSilent (resume_loop (suc (length s.paused_list)) s) _
      (resume_loop-IsSilent (suc (length s.paused_list)) s h)
      (λ t k. record { silent = k.silent; chosen = k.chosen })
