-- ===== src/Playback/Calls.antt =====
-- src/common/speak_queue.c: the operations that the module and its synthesizer call. Each is one
-- critical section; a wait ends it, and is a result of its own here.
use speechd.Base.{ℕ, ◌*◌, ◌/◌, Bool, true, false, not, ◌&&◌, ◌||◌, List, if◌then◌else◌, ltb, take}
use speechd.Playback.{
  idle, before_synth, before_play, pause_off, pause_requested, AudioFormat, Track, Entry, Shared,
  is_idle, module_speak_queue_reset, playback_queue_push, clear_playback_queue,
}

-- `module_speak_queue_init` on the static variables of a program that has just started.
abbrev pub initial : Bool → ℕ → Shared
initial has_audio maxsize = record {
  phase = idle;
  configured = false;
  stop_or_pause_sleeping = false;
  play_sleeping = false;
  close_requested = false;
  pause_state = pause_off;
  stop_requested = false;
  flush_requested = false;
  maxsize = maxsize;
  playback_queue = List.[];
  playback_queue_size = 0;
  has_audio = has_audio;
}

-- `module_speak_queue_before_synth`; the result is FALSE unless the queue is idle.
unfoldable pub module_speak_queue_before_synth : Shared → Shared × Bool
module_speak_queue_before_synth m =
    if is_idle m.phase
    then (record (module_speak_queue_reset m) { phase = before_synth }, true)
    else (m, false)

-- `module_speak_queue_before_play`
unfoldable pub module_speak_queue_before_play : Shared → Shared × Bool
module_speak_queue_before_play m = elim m.phase [
  | before_synth ↦ (playback_queue_push Entry.begin_flag (record m { phase = before_play }), true)
  | _ ↦ (m, false)
]

unfoldable pub module_speak_queue_add_end : Shared → Shared
module_speak_queue_add_end m = playback_queue_push Entry.end_flag m

-- The test by which audio is refused.
abbrev refuses : Shared → Bool
refuses m = is_idle m.phase || m.stop_requested || m.flush_requested

-- `g_memdup2(track->samples, nbytes)`
abbrev pub copied : Track → Track
copied t = record t { samples = take (t.bits / 8 * t.num_samples) t.samples }

-- `module_speak_queue_add_audio` from its start, or from its return from waiting for room, up to its
-- next wait (`no_room`) or its end: FALSE (`refused`) or TRUE.
pub data Added : Type 0 where
  no_room refused : Added
  added : Shared → Added

unfoldable pub module_speak_queue_add_audio : Track → AudioFormat → Shared → Added
module_speak_queue_add_audio t f m =
    if refuses m
    then Added.refused
    else if ltb m.maxsize m.playback_queue_size
    then Added.no_room
    else Added.added (playback_queue_push (Entry.audio (copied t) f) m)

unfoldable pub module_speak_queue_add_mark : List ℕ → Shared → Shared
module_speak_queue_add_mark mark m = playback_queue_push (Entry.index_mark mark) m

unfoldable pub module_speak_queue_add_sound_icon : List ℕ → Shared → Shared
module_speak_queue_add_sound_icon name m = playback_queue_push (Entry.sound_icon name) m

unfoldable pub module_speak_queue_flush : Shared → Shared
module_speak_queue_flush m = record m { flush_requested = true }

-- `module_speak_queue_stop`; the result tells whether it goes on to wait for room.
unfoldable pub module_speak_queue_stop : Shared → Shared × Bool
module_speak_queue_stop m =
    if not (is_idle m.phase) && not m.stop_requested && m.stop_or_pause_sleeping
    then (record m { stop_requested = true }, true)
    else (m, false)

unfoldable pub module_speak_queue_pause : Shared → Shared
module_speak_queue_pause m = elim m.pause_state [
  | pause_off ↦ if m.stop_requested then m else record m { pause_state = pause_requested }
  | _ ↦ m
]

-- `module_speak_queue_terminate`, up to the joins.
unfoldable pub module_speak_queue_terminate : Shared → Shared
module_speak_queue_terminate m = record m { stop_requested = true; close_requested = true }

unfoldable pub module_speak_queue_free : Shared → Shared
module_speak_queue_free m = clear_playback_queue m

-- One call of any of them. `add_audio` may stand for the return from its wait.
pub data Call : Type 0 where
  call_before_synth call_before_play call_add_end : Call
  call_add_audio : Track → AudioFormat → Call
  call_add_mark : List ℕ → Call
  call_add_sound_icon : List ℕ → Call
  call_flush call_stop call_pause call_terminate call_free : Call

-- What the call leaves in the shared variables.
abbrev after_added : Shared → Added → Shared
after_added m (Added.added m') = m'
after_added m _ = m

unfoldable pub perform : Call → Shared → Shared
perform call_before_synth m = (module_speak_queue_before_synth m).0
perform call_before_play m = (module_speak_queue_before_play m).0
perform call_add_end m = module_speak_queue_add_end m
perform (call_add_audio t f) m = after_added m (module_speak_queue_add_audio t f m)
perform (call_add_mark mark) m = module_speak_queue_add_mark mark m
perform (call_add_sound_icon name) m = module_speak_queue_add_sound_icon name m
perform call_flush m = module_speak_queue_flush m
perform call_stop m = (module_speak_queue_stop m).0
perform call_pause m = module_speak_queue_pause m
perform call_terminate m = module_speak_queue_terminate m
perform call_free m = module_speak_queue_free m
