-- ===== src/Speaking/Reload/Returns.antt =====
-- src/server/speaking.c: a message is put back into its queue if its client has settings.
use mathlib.Core.Path.{subst}
use speechd.Base.{ℕ, zero, suc, ◌≡◌, ◌≢◌, Option, none, some, List, drop, arith, refl, ap}
use speechd.Base.Int.{ℤ, pos, negsuc, ◌+ℤ◌, sub_ℕ}
use speechd.Types.{msg_text}
use speechd.Message.{Message, Settings}
use speechd.Server.{State, ◌>>=◌, done, Ensures, Ensures-bind}
use speechd.Server.Clients.{get_client_settings_by_uid}
use speechd.Speaking.Enqueue.{queue_message}
use speechd.Speaking.Enqueue.Block.{HasClient, queue_message-returns}
use speechd.Speaking.Enqueue.Aside.{SpeakerAfter, queue_message-SameSpeaker}
use speechd.Speaking.Priorities.Aside.{SameSpeaker, SameSpeaker-refl}
use speechd.Speaking.Reload.{
  outcome, requeue, requeue_text, requeue_mark, requeue_from, resume_position, reload_message,
  strtol,
}

requeue-SameSpeaker : (m : Message) (s : State) → Ensures (SpeakerAfter s) (requeue m s)
unfolding requeue
requeue-SameSpeaker m s =
    Ensures-bind (SpeakerAfter s) (queue_message m (sub_ℕ 0 m.settings.uid) msg_text 0 s) _
      (queue_message-SameSpeaker (sub_ℕ 0 m.settings.uid) m msg_text 0 s) outcome-SameSpeaker
  where
    outcome-SameSpeaker : (r : ℤ × State) → SpeakerAfter s r → SpeakerAfter s (outcome r)
    outcome-SameSpeaker (pos zero, t) h = h
    outcome-SameSpeaker (_, t) h = h

requeue_text-SameSpeaker :
    (text : Option (List ℕ)) (c : Settings) (m : Message) (s : State)
    → Ensures (SpeakerAfter s) (requeue_text text c m s)
unfolding requeue_text
requeue_text-SameSpeaker none c m s = SameSpeaker-refl s
requeue_text-SameSpeaker (some text) c m s = requeue-SameSpeaker _ s

requeue_from-SameSpeaker :
    (im : Option ℤ) (c : Option Settings) (m : Message) (s : State)
    → Ensures (SpeakerAfter s) (requeue_from im c m s)
unfolding requeue_from
requeue_from-SameSpeaker none c m s = SameSpeaker-refl s
requeue_from-SameSpeaker (some im) none m s = tt
requeue_from-SameSpeaker (some im) (some c) m s =
    requeue_text-SameSpeaker (resume_position m (im +ℤ c.pause_context)) c m s

requeue_mark-SameSpeaker :
    (mark : Option (List ℕ)) (m : Message) (s : State)
    → Ensures (SpeakerAfter s) (requeue_mark mark m s)
unfolding requeue_mark
requeue_mark-SameSpeaker none m s = requeue-SameSpeaker m s
requeue_mark-SameSpeaker (some mark) m s =
    requeue_from-SameSpeaker (strtol (drop 6 mark)) (get_client_settings_by_uid s m.settings.uid) m
      s

pub reload_message-SameSpeaker :
    (m : Message) (s : State) → Ensures (SpeakerAfter s) (reload_message m s)
unfolding reload_message
reload_message-SameSpeaker m s = requeue_mark-SameSpeaker m.settings.index_mark m s

client_of_uid :
    (uid : ℕ) (s : State) → get_client_settings_by_uid s uid ≢ none → HasClient (sub_ℕ 0 uid) s
client_of_uid zero s h = tt
client_of_uid (suc uid) s h =
    let e : negsuc uid ≡ sub_ℕ 0 (suc uid) = ground arith in subst (λ k. HasClient k s) e h

requeue-returns :
    (m : Message) (s : State)
    → get_client_settings_by_uid s m.settings.uid ≢ none
    → (r : ℤ × State) × (requeue m s ≡ done r)
unfolding requeue
requeue-returns m s h =
    let (r, e) =
      queue_message-returns (sub_ℕ 0 m.settings.uid) m msg_text 0 s
        (client_of_uid m.settings.uid s h) in
    (outcome r, ap (λ q. q >>= λ x. done (outcome x)) e)

requeue_text-returns :
    (text : Option (List ℕ)) (c : Settings) (m : Message) (s : State)
    → get_client_settings_by_uid s m.settings.uid ≢ none
    → (r : ℤ × State) × (requeue_text text c m s ≡ done r)
unfolding requeue_text
requeue_text-returns none c m s h = (_, refl)
requeue_text-returns (some text) c m s h = requeue-returns _ s h

requeue_from-returns :
    (im : Option ℤ) (c : Option Settings) (m : Message) (s : State)
    → get_client_settings_by_uid s m.settings.uid ≢ none
    → c ≢ none
    → (r : ℤ × State) × (requeue_from im c m s ≡ done r)
unfolding requeue_from
requeue_from-returns none c m s h k = (_, refl)
requeue_from-returns (some im) none m s h k = absurd (k refl)
requeue_from-returns (some im) (some c) m s h k =
    requeue_text-returns (resume_position m (im +ℤ c.pause_context)) c m s h

requeue_mark-returns :
    (mark : Option (List ℕ)) (m : Message) (s : State)
    → get_client_settings_by_uid s m.settings.uid ≢ none
    → (r : ℤ × State) × (requeue_mark mark m s ≡ done r)
unfolding requeue_mark
requeue_mark-returns none m s h = requeue-returns m s h
requeue_mark-returns (some mark) m s h =
    requeue_from-returns (strtol (drop 6 mark)) (get_client_settings_by_uid s m.settings.uid) m s h
      h

-- A message of a client that has settings is put back, and what the speaking thread looks at stays.
pub reload_message-returns :
    (m : Message) (s : State)
    → get_client_settings_by_uid s m.settings.uid ≢ none
    → (r : ℤ × State) × (reload_message m s ≡ done r) × SameSpeaker s r.1
unfolding reload_message
reload_message-returns m s h =
    let (r, e) = requeue_mark-returns m.settings.index_mark m s h in
    (r, e, subst (Ensures (SpeakerAfter s)) e (reload_message-SameSpeaker m s))
