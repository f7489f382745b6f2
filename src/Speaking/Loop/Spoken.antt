-- ===== src/Speaking/Loop/Spoken.antt =====
-- src/server/speaking.c: what holds while something is spoken, kept by every round of speak().
use mathlib.Core.Path.{subst}
use speechd.Base.{
  ℕ, zero, ◌==◌, ltb, ◌≡◌, true, false, not, ◌&&◌, Option, none, some, List, [], ◌∷◌, last?, arith,
  refl, sym, ap, ◌∙◌, inl, inr, if◌then◌else◌, if_both, if_split,
}
use speechd.Base.Int.{ℤ, pos}
use speechd.Message.{Message, Settings}
use speechd.Server.{State, Ensures, Ensures-bind}
use speechd.Server.Clients.{get_client_settings_by_uid, remove_client_settings_by_uid}
use speechd.Server.Modules.{Outputs, OutputModule, get_output_module}
use speechd.Speaking.Choose.{get_message_from_queues, message_nto_speak}
use speechd.Speaking.Choose.First.{get_message_from_queues_lem}
use speechd.Speaking.Pause.{speaking_pause_all}
use speechd.Speaking.Pause.Spoken.{speaking_pause-IsSpoken, speaking_pause_all-IsSpoken}
use speechd.Speaking.Events.Spoken.{is_sb_speaking-IsSpoken}
use speechd.Speaking.Spoken.{is_some, IsSpoken}
use speechd.Speaking.Reload.{resume}
use speechd.Speaking.Queue.{client_has_messages}
use speechd.Speaking.Loop.{
  on_activity, forget_settings, replace_message, speak_text, speak_by, prepare, spoken_or_lost,
  take_next_or, TextTools, Met, Activity, quiet, hung_up, says, handle_pause, listen, act,
  take_next, speak_chosen, started_speaking, drop_spoken_block, output_speak, speak_round,
}
use speechd.Speaking.Loop.Silent.{IsSilent, silent-IsSpoken, postponed-IsSilent, resume-IsSilent}

on_activity-IsSpoken : (a : Activity) (s : State) → IsSpoken s → Ensures IsSpoken (on_activity a s)
unfolding on_activity
on_activity-IsSpoken quiet s h = h
on_activity-IsSpoken hung_up s h = tt
on_activity-IsSpoken (says mark) s h = is_sb_speaking-IsSpoken mark s h

listen-IsSpoken : (a : Activity) (s : State) → IsSpoken s → Ensures IsSpoken (listen a s)
unfolding listen
listen-IsSpoken a s h =
    if_both (Ensures IsSpoken) (ltb 1 s.poll_count) _ _ (on_activity-IsSpoken a s h) h

unrequested : (s : State) → IsSpoken s → IsSpoken (record s { pause_requested = 0 })
unrequested s h = record { chosen = h.chosen; current = h.current; by_module = h.by_module }

handle_pause-IsSpoken : (s : State) → IsSpoken s → IsSpoken (handle_pause s)
unfolding handle_pause
handle_pause-IsSpoken s h =
    let t = if s.pause_requested == 1 then (speaking_pause_all s).1 else s in
    let k : IsSpoken t =
      if_both IsSpoken (s.pause_requested == 1) _ _ (speaking_pause_all-IsSpoken s h) h in
    unrequested _ (
      if_both IsSpoken (t.pause_requested == 2) _ _
        (speaking_pause-IsSpoken t.pause_requested_uid t k) k)

-- The start of speaking: the priority and the module are known.
record IsReady (s : State) : Type 0 where
  chosen : is_some s.highest_priority ≡ true
  by_module : is_some s.speaking_module ≡ true

forget_settings-IsReady :
    (c : Option Settings) (uid : ℕ) (m : Message) (s : State)
    → IsReady s
    → Ensures IsReady (forget_settings c uid m s)
unfolding forget_settings remove_client_settings_by_uid
forget_settings-IsReady none uid m s h = tt
forget_settings-IsReady (some c) uid m s h =
    if_both (Ensures IsReady)
      (not c.active && (not (client_has_messages s uid) && not (uid == m.settings.uid))) _ _
      (record { chosen = h.chosen; by_module = h.by_module }) h

replace_message-IsReady :
    (old : Option Message) (m : Message) (s : State)
    → IsReady s
    → Ensures IsReady (replace_message old m s)
unfolding replace_message
replace_message-IsReady none m s h = h
replace_message-IsReady (some old) m s h =
    if_both (Ensures IsReady) old.settings.paused_while_speaking _ _ h (
      forget_settings-IsReady (get_client_settings_by_uid s old.settings.uid) old.settings.uid m s
        h)

drop_spoken_block-IsSpoken :
    (m : Message) (s : State)
    → IsReady s
    → IsSpoken (drop_spoken_block m (record s { current_message = some m }))
unfolding drop_spoken_block
drop_spoken_block-IsSpoken m s h = record {
  chosen = λ e. ground (arith, h.chosen);
  current = λ e. ground arith;
  by_module = λ e. ground (arith, h.by_module);
}

started_speaking-IsSpoken :
    (m : Message) (s : State) → IsReady s → Ensures IsSpoken (started_speaking m s)
unfolding started_speaking
started_speaking-IsSpoken m s h =
    let t = record s { speaking = true; poll_count = 2; speaking_uid = m.settings.uid } in
    Ensures-bind IsSpoken (replace_message s.current_message m t) _
      (replace_message-IsReady s.current_message m t
        (record { chosen = h.chosen; by_module = h.by_module }))
      (λ u k. drop_spoken_block-IsSpoken m u k)

-- A message was chosen, but nothing is spoken yet.
record IsAtHand (s : State) : Type 0 where
  silent : s.speaking ≡ false
  chosen : is_some s.highest_priority ≡ true

at_hand : {s : State} → IsAtHand s → IsSpoken s
at_hand h = record {
  chosen = λ e. h.chosen;
  current = λ e. ground (arith, h.silent, e);
  by_module = λ e. ground (arith, h.silent, e);
}

speak_text-IsSpoken :
    (ret : ℤ) (output : OutputModule) (m : Option Message) (s : State)
    → IsAtHand s
    → Ensures IsSpoken (speak_text ret output m s)
unfolding speak_text spoken_or_lost output_speak
speak_text-IsSpoken ret output none s h = at_hand h
speak_text-IsSpoken (pos zero) output (some m) s h =
    started_speaking-IsSpoken _ _ (record { chosen = h.chosen; by_module = refl })
speak_text-IsSpoken ret output (some m) s h =
    at_hand (record { silent = h.silent; chosen = h.chosen })

speak_by-IsSpoken :
    (tools : TextTools) (ret : ℤ) (m : Message) (o : Option OutputModule) (s : State)
    → IsAtHand s
    → Ensures IsSpoken (speak_by tools ret m o s)
unfolding speak_by
speak_by-IsSpoken tools ret m none s h = at_hand h
speak_by-IsSpoken tools ret m (some o) s h = speak_text-IsSpoken ret o (prepare tools m o) s h

module _ (tools : TextTools) (outputs : Outputs) (ret : ℤ) where
  speak_chosen-IsSpoken :
      (m : Message) (s : State)
      → IsAtHand s
      → Ensures IsSpoken (speak_chosen tools outputs ret (some m) s)
  unfolding speak_chosen
  speak_chosen-IsSpoken m s h =
      if_both (Ensures IsSpoken) (message_nto_speak s m) _ _
        (at_hand (record { silent = h.silent; chosen = h.chosen }))
        (speak_by-IsSpoken tools ret m (get_output_module outputs m) s h)

  next-IsSpoken :
      (s : State)
      → IsSilent s
      → Ensures IsSpoken (
          speak_chosen tools outputs ret
            (get_message_from_queues s).0
            (get_message_from_queues s).1)
  unfolding speak_chosen
  next-IsSpoken s h = elim (get_message_from_queues_lem s) [
    | inl (e, _) ↦
        subst (λ r. Ensures IsSpoken (speak_chosen tools outputs ret r.0 r.1)) (sym e)
          (silent-IsSpoken h)
    | inr (m, t, e, c) ↦
        subst (λ r. Ensures IsSpoken (speak_chosen tools outputs ret r.0 r.1)) (sym e)
          (speak_chosen-IsSpoken m t (record {
            silent = ap (λ x. x.speaking) c.after ∙ h.silent;
            chosen = ap (λ x. is_some x.highest_priority) c.after;
          }))
  ]

  take_next_or-IsSpoken :
      (last : Option Message) (p5 : List Message) (s : State)
      → IsSilent s
      → Ensures IsSpoken (take_next_or tools outputs ret last p5 s)
  unfolding take_next_or
  take_next_or-IsSpoken (some m) [] s h = silent-IsSpoken (postponed-IsSilent m s h)
  take_next_or-IsSpoken none p5 s h = next-IsSpoken s h
  take_next_or-IsSpoken (some m) (x ∷ p5) s h = next-IsSpoken s h

  act-IsSpoken : (s : State) → IsSpoken s → Ensures IsSpoken (act tools outputs ret s)
  unfolding act take_next
  act-IsSpoken s h =
      if_both (Ensures IsSpoken) (not (s.pause_requested == 0)) _ _ (handle_pause-IsSpoken s h) (
        if_split (Ensures IsSpoken) s.speaking _ _ (λ e. h)
          (λ e.
            let k : IsSilent s = record { silent = e; chosen = h.chosen } in
            if_both (Ensures IsSpoken) s.resume_requested _ _
              (Ensures-bind IsSpoken (resume s) _ (resume-IsSilent s k)
                (λ t l. take_next_or-IsSpoken (last? t.last_p5_block) t.queues.p5 t l))
              (take_next_or-IsSpoken (last? s.last_p5_block) s.queues.p5 s k)))

-- Whatever a round of speak() meets: if before it, while something was spoken, it was known what and
-- by which module, and for a current message the priority that was chosen, then it is so after the round, unless
-- the round ends the server.
pub speak_round-IsSpoken :
    (tools : TextTools) (outputs : Outputs) (met : Met) (s : State)
    → IsSpoken s
    → Ensures IsSpoken (speak_round tools outputs met s)
unfolding speak_round
speak_round-IsSpoken tools outputs met s h = if_both (Ensures IsSpoken) met.wake_up_lost _ _ tt (
    Ensures-bind IsSpoken (listen met.activity s) _ (listen-IsSpoken met.activity s h)
      (λ t k. act-IsSpoken tools outputs met.spoken t k))
