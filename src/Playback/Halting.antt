-- ===== src/Playback/Halting.antt =====
-- src/common/speak_queue.c: a stop comes to its report.
use mathlib.Core.Path.{subst}
use speechd.Base.{
  ℕ, zero, suc, ◌-◌, ◌≤◌, ◌≡◌, Bool, true, false, Option, List, [], ◌∷◌, arith, refl, ◌∙◌,
}
use speechd.Playback.{
  idle, PauseState, pause_off, mark_reported, Output, audio_stop, cancel_synth, report_pause,
  report_stop, Shared, module_speak_queue_reset, playback_queue_pop, clear_playback_queue,
}
use speechd.Playback.Player.{
  PlayerAt, asleep, popping, head, leaving, returned, handling, finishing, SoundFile, send_track,
  send_file, end_audio, wake_up, handle, play,
}
use speechd.Playback.Stopper.{waiting, silencing, take_request, halt}
use speechd.Playback.Threads.{System, Reach, player_step, stopper_step, player_steps, stopper_steps}
use speechd.Playback.Sleeping.{is_asleep, Reach-IsRoused}

-- The steps that the playback thread has left before it sleeps, plus one, when a stop is requested.
abbrev pub steps_left : PlayerAt → ℕ
steps_left returned = 0
steps_left asleep = 1
steps_left head = 2
steps_left leaving = 3
steps_left popping = 4
steps_left finishing = 4
steps_left (handling e) = 6
steps_left _ = 5

-- A stop has been requested and the state is idle.
record IsStopped (m : Shared) (p : PlayerAt) : Type 0 where
  stop : m.stop_requested ≡ true
  close : m.close_requested ≡ false
  phase : m.phase ≡ idle
  sleeps : m.play_sleeping ≡ is_asleep p

record IsOnward (m m' : Shared) (p p' : PlayerAt) : Type 0 where
  stopped : IsStopped m' p'
  left : steps_left p' - 1 ≤ (steps_left p - 1) - 1
  pause_state : m'.pause_state ≡ m.pause_state
  has_audio : m'.has_audio ≡ m.has_audio

play-IsOnward :
    (sf_open : List ℕ → Option SoundFile) (p : PlayerAt) (m : Shared)
    → IsStopped m p
    → IsOnward m (play sf_open p m).shared p (play sf_open p m).place
unfolding play handle wake_up send_track send_file end_audio playback_queue_pop
play-IsOnward sf_open p m i = record {
  stopped = record {
    stop = ground (arith, i.stop, i.close, i.phase);
    close = ground (arith, i.stop, i.close, i.phase);
    phase = ground (arith, i.stop, i.close, i.phase);
    sleeps = ground (arith, i.stop, i.close, i.phase, i.sleeps);
  };
  left = ground (arith, i.stop, i.close, i.phase);
  pause_state = ground (arith, i.stop, i.close, i.phase);
  has_audio = ground (arith, i.stop, i.close, i.phase);
}

record IsAfter (n : ℕ) (s t : System) : Type 0 where
  stopped : IsStopped t.shared t.player
  left : steps_left t.player - 1 ≤ (steps_left s.player - 1) - n
  pause_state : t.shared.pause_state ≡ s.shared.pause_state
  stopper : t.stopper ≡ s.stopper

one_more :
    (sf_open : List ℕ → Option SoundFile) (s : System) {n : ℕ} {t : System}
    → IsOnward s.shared
        (play sf_open s.player s.shared).shared
        s.player
        (play sf_open s.player s.shared).place
    → IsAfter n (player_step sf_open s) t
    → IsAfter (suc n) s t
unfolding player_step
one_more sf_open s one rest = record {
  stopped = rest.stopped;
  left = omega (arith, rest.left, one.left);
  pause_state = rest.pause_state ∙ one.pause_state;
  stopper = rest.stopper;
}

player_steps-IsAfter :
    (sf_open : List ℕ → Option SoundFile) (n : ℕ) (s : System)
    → IsStopped s.shared s.player
    → IsAfter n s (player_steps sf_open n s)
unfolding player_steps player_step
player_steps-IsAfter sf_open zero s i = record {
  stopped = i;
  left = omega arith;
  pause_state = refl;
  stopper = refl;
}
player_steps-IsAfter sf_open (suc n) s i =
    let one = play-IsOnward sf_open s.player s.shared i in
    one_more sf_open s one (player_steps-IsAfter sf_open n (player_step sf_open s) one.stopped)

pub steps_left_le : (p : PlayerAt) → steps_left p ≤ 6
steps_left_le p = ground arith

is_asleep_of : (p : PlayerAt) → steps_left p - 1 ≤ 0 → is_asleep p ≡ true
is_asleep_of p h = ground arith

-- The report that a stop or a pause ends with.
abbrev pub report_of : PauseState → Output
report_of mark_reported = report_pause
report_of _ = report_stop

-- What a stop leaves: all variables reset, nothing in the queue, and one report behind what the
-- playback thread still said (`before`).
pub record IsReset (p : PauseState) (before : List Output) (s : System) : Type 0 where
  pub stopper : s.stopper ≡ waiting
  pub phase : s.shared.phase ≡ idle
  pub stop : s.shared.stop_requested ≡ false
  pub flush : s.shared.flush_requested ≡ false
  pub pause_state : s.shared.pause_state ≡ pause_off
  pub queue : s.shared.playback_queue ≡ []
  pub size : s.shared.playback_queue_size ≡ 0
  pub log : s.log ≡ report_of p ∷ cancel_synth ∷ audio_stop ∷ before

-- The thread that stops, once the playback thread sleeps.
stopper_steps-IsReset :
    (s : System)
    → s.stopper ≡ silencing
    → s.shared.play_sleeping ≡ true
    → s.shared.close_requested ≡ false
    → IsReset s.shared.pause_state s.log (stopper_steps 7 s)
unfolding stopper_steps stopper_step halt take_request clear_playback_queue module_speak_queue_reset
stopper_steps-IsReset s e h c = record {
  stopper = ground (arith, e, h, c);
  phase = ground (arith, e, h, c);
  stop = ground (arith, e, h, c);
  flush = ground (arith, e, h, c);
  pause_state = ground (arith, e, h, c);
  queue = ground (arith, e, h, c);
  size = ground (arith, e, h, c);
  log = ground (arith, e, h, c);
}

record IsReady (s t : System) : Type 0 where
  stopped : IsStopped t.shared t.player
  pause_state : t.shared.pause_state ≡ s.shared.pause_state
  stopper : t.stopper ≡ silencing

-- The thread that stops, from its wait up to its first call of the audio library.
stopper_steps-IsReady :
    (s : System)
    → s.stopper ≡ waiting
    → s.shared.stop_requested ≡ true
    → s.shared.close_requested ≡ false
    → s.shared.has_audio ≡ true
    → s.shared.play_sleeping ≡ is_asleep s.player
    → IsReady s (stopper_steps 2 s)
unfolding stopper_steps stopper_step halt take_request
stopper_steps-IsReady s e stop close audio sleeps = record {
  stopped = record {
    stop = ground (arith, e, stop, close, audio);
    close = ground (arith, e, stop, close, audio);
    phase = ground (arith, e, stop, close, audio);
    sleeps = ground (arith, e, stop, close, audio, sleeps);
  };
  pause_state = ground (arith, e, stop, close, audio);
  stopper = ground (arith, e, stop, close, audio);
}

-- A stop that was requested while the thread for it waits, with an audio output, comes to its end: when
-- that thread has seen the request and set the state to IDLE, the playback thread sleeps after at most five steps,
-- wherever it stood, and then the other thread resets all variables, leaves the queue empty and
-- reports once, a pause if the playback thread stopped at a mark and a stop otherwise.
pub stop_ends :
    (sf_open : List ℕ → Option SoundFile) (chunk maxsize : ℕ) (has_audio : Bool) (n : ℕ)
    (s : System)
    → Reach sf_open chunk has_audio maxsize s
    → s.stopper ≡ waiting
    → s.shared.stop_requested ≡ true
    → s.shared.close_requested ≡ false
    → s.shared.has_audio ≡ true
    → 5 ≤ n
    → IsReset s.shared.pause_state
        (player_steps sf_open n (stopper_steps 2 s)).log
        (stopper_steps 7 (player_steps sf_open n (stopper_steps 2 s)))
stop_ends sf_open chunk maxsize has_audio n s r e stop close audio h =
    subst
      (λ p.
        IsReset p (player_steps sf_open n (stopper_steps 2 s)).log
          (stopper_steps 7 (player_steps sf_open n (stopper_steps 2 s))))
      (after.pause_state ∙ ready.pause_state)
      (stopper_steps-IsReset (player_steps sf_open n (stopper_steps 2 s))
        (after.stopper ∙ ready.stopper)
        (after.stopped.sleeps
          ∙ is_asleep_of _ (omega (arith, after.left, steps_left_le (stopper_steps 2 s).player, h)))
        after.stopped.close)
  where
    ready : IsReady s (stopper_steps 2 s)
    ready = stopper_steps-IsReady s e stop close audio (Reach-IsRoused r).sleeps

    after : IsAfter n (stopper_steps 2 s) (player_steps sf_open n (stopper_steps 2 s))
    after = player_steps-IsAfter sf_open n (stopper_steps 2 s) ready.stopped
