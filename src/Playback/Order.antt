-- ===== src/Playback/Order.antt =====
-- src/common/speak_queue.c: a message that nobody stops is played whole and in its order.
use mathlib.Core.Path.{subst}
use speechd.Base.{
  ℕ, zero, suc, ◌+◌, ◌≡◌, false, Option, List, [], ◌∷◌, ◌++◌, map, arith, ap, ◌∙◌, sym,
}
use speechd.Playback.{
  idle, speaking, pause_off, Track, AudioFormat, Entry, audio, index_mark, end_flag, Output,
  audio_begin, audio_feed, audio_end, report_mark, report_end, playback_queue_pop,
}
use speechd.Playback.Player.{popping, head, SoundFile, send_track, end_audio, handle, play}
use speechd.Playback.Threads.{System, player_step, player_steps}

-- A part of a message: a chunk of audio or an index mark.
pub data Part : Type 0 where
  chunk : Track → AudioFormat → Part
  mark : List ℕ → Part

abbrev pub entry_of : Part → Entry
entry_of (chunk t f) = audio t f
entry_of (mark k) = index_mark k

abbrev pub event_of : Part → Output
event_of (chunk t f) = audio_feed t f
event_of (mark k) = report_mark k

-- What is heard: the log without the calls that set up and end the audio.
abbrev pub heard : List Output → List Output
heard [] = []
heard (audio_begin t f ∷ log) = heard log
heard (audio_end ∷ log) = heard log
heard (e ∷ log) = e ∷ heard log

-- The parts in their order, on top of what was heard before.
abbrev pub in_order : List Part → List Output → List Output
in_order [] log = log
in_order (p ∷ ps) log = in_order ps (event_of p ∷ log)

abbrev steps_for : Part → ℕ
steps_for (chunk t f) = 2
steps_for (mark k) = 3

-- The steps that the thread takes for a message.
abbrev pub steps_of : List Part → ℕ
steps_of [] = 5
steps_of (p ∷ ps) = steps_for p + steps_of ps

-- The thread plays a message whose parts wait in the queue, and nobody wants to stop it.
pub record IsPlaying (ps : List Part) (s : System) : Type 0 where
  pub player : s.player ≡ popping
  pub phase : s.shared.phase ≡ speaking
  pub stop : s.shared.stop_requested ≡ false
  pub pause_state : s.shared.pause_state ≡ pause_off
  pub queue : s.shared.playback_queue ≡ map entry_of ps ++ end_flag ∷ []

player_steps-add :
    (sf_open : List ℕ → Option SoundFile) (n k : ℕ) (s : System)
    → player_steps sf_open (n + k) s ≡ player_steps sf_open k (player_steps sf_open n s)
unfolding player_steps
player_steps-add sf_open zero k s =
    let e : zero + k ≡ k = omega arith in ap (λ j. player_steps sf_open j s) e
player_steps-add sf_open (suc n) k s =
    let e : suc n + k ≡ suc (n + k) = omega arith in
    ap (λ j. player_steps sf_open j s) e ∙ player_steps-add sf_open n k (player_step sf_open s)

record IsPlayed (p : Part) (ps : List Part) (s t : System) : Type 0 where
  playing : IsPlaying ps t
  told : heard t.log ≡ event_of p ∷ heard s.log

play-IsPlayed :
    (sf_open : List ℕ → Option SoundFile) (p : Part) (ps : List Part) (s : System)
    → IsPlaying (p ∷ ps) s
    → IsPlayed p ps s (player_steps sf_open (steps_for p) s)
unfolding player_steps player_step play handle send_track playback_queue_pop
play-IsPlayed sf_open (chunk t f) ps s i = record {
  playing = record {
    player = ground (arith, i.player, i.stop, i.queue);
    phase = ground (arith, i.player, i.phase, i.stop, i.queue);
    stop = ground (arith, i.player, i.stop, i.queue);
    pause_state = ground (arith, i.player, i.pause_state, i.stop, i.queue);
    queue = ground (arith, i.player, i.stop, i.queue);
  };
  told = ground (arith, i.player, i.stop, i.queue);
}
play-IsPlayed sf_open (mark k) ps s i = record {
  playing = record {
    player = ground (arith, i.player, i.stop, i.queue, i.pause_state);
    phase = ground (arith, i.player, i.phase, i.stop, i.queue, i.pause_state);
    stop = ground (arith, i.player, i.stop, i.queue, i.pause_state);
    pause_state = ground (arith, i.player, i.pause_state, i.stop, i.queue);
    queue = ground (arith, i.player, i.stop, i.queue, i.pause_state);
  };
  told = ground (arith, i.player, i.stop, i.queue, i.pause_state);
}

-- What a message leaves that was played to its end.
pub record IsFinished (ps : List Part) (s t : System) : Type 0 where
  pub player : t.player ≡ head
  pub phase : t.shared.phase ≡ idle
  pub configured : t.shared.configured ≡ false
  pub queue : t.shared.playback_queue ≡ []
  pub told : heard t.log ≡ report_end ∷ in_order ps (heard s.log)

end-IsFinished :
    (sf_open : List ℕ → Option SoundFile) (s : System)
    → IsPlaying [] s
    → IsFinished [] s (player_steps sf_open 5 s)
unfolding player_steps player_step play handle end_audio playback_queue_pop
end-IsFinished sf_open s i = record {
  player = ground (arith, i.player, i.phase, i.stop, i.queue);
  phase = ground (arith, i.player, i.phase, i.stop, i.queue);
  configured = ground (arith, i.player, i.phase, i.stop, i.queue);
  queue = ground (arith, i.player, i.phase, i.stop, i.queue);
  told = ground (arith, i.player, i.phase, i.stop, i.queue);
}

behind :
    {p : Part} {ps : List Part} {s t u : System}
    → heard t.log ≡ event_of p ∷ heard s.log
    → IsFinished ps t u
    → IsFinished (p ∷ ps) s u
behind {ps} e f = record {
  player = f.player;
  phase = f.phase;
  configured = f.configured;
  queue = f.queue;
  told = f.told ∙ ap (λ log. report_end ∷ in_order ps log) e;
}

-- A message whose audio and index marks are in the queue with the end flag behind them, and which
-- nobody stops or pauses, is played by the thread in a number of steps that is known: all of it, in its
-- order, and then its end is reported, the state is IDLE, the queue empty and the audio ended.
pub plays_in_order :
    (sf_open : List ℕ → Option SoundFile) (ps : List Part) (s : System)
    → IsPlaying ps s
    → IsFinished ps s (player_steps sf_open (steps_of ps) s)
plays_in_order sf_open [] s i = end-IsFinished sf_open s i
plays_in_order sf_open (p ∷ ps) s i =
    let t = player_steps sf_open (steps_for p) s in
    let one = play-IsPlayed sf_open p ps s i in
    subst (IsFinished (p ∷ ps) s) (sym (player_steps-add sf_open (steps_for p) (steps_of ps) s))
      (behind one.told (plays_in_order sf_open ps t one.playing))
