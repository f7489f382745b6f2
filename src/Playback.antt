-- ===== src/Playback.antt =====
-- src/common/speak_queue.c and speak_queue.h: the queue between a synthesizer and the audio output,
-- its variables and the operations on the list of entries. All of them run under speak_queue_mutex.
pub mod Calls
pub mod Player
pub mod Stopper
pub mod Threads
pub mod Account
pub mod Sleeping
pub mod PauseMark
pub mod Ends
pub mod Halting
pub mod Closing
pub mod NoAudio
pub mod Order
use speechd.Base.{ℕ, ◌+◌, ◌-◌, Bool, true, false, List, [], ◌∷◌, ◌++◌, if◌then◌else◌}

-- `speak_queue_state_t`
pub data Phase : Type 0 where
  idle before_synth before_play speaking : Phase

-- `speak_queue_pause_state_t`
pub data PauseState : Type 0 where
  pause_off pause_requested mark_reported : PauseState

-- `AudioFormat`
pub data AudioFormat : Type 0 where
  audio_le audio_be : AudioFormat

-- `AudioTrack`, with its samples as bytes.
pub record Track : Type 0 where
  pub bits : ℕ
  pub num_channels : ℕ
  pub sample_rate : ℕ
  pub num_samples : ℕ
  pub samples : List ℕ

-- `speak_queue_entry`, with the member of the union that goes with its type.
pub data Entry : Type 0 where
  audio : Track → AudioFormat → Entry
  index_mark : List ℕ → Entry
  sound_icon : List ℕ → Entry
  begin_flag end_flag pause_flag stop_flag broken_flag : Entry

-- What leaves the queue: calls of the audio library, of the module, and reports to the server.
pub data Output : Type 0 where
  audio_begin : Track → AudioFormat → Output
  audio_feed : Track → AudioFormat → Output
  audio_end audio_stop : Output
  report_mark : List ℕ → Output
  report_begin report_end report_pause report_stop : Output
  cancel_synth : Output

-- The static variables. `has_audio` tells whether `module_audio_id` is set.
pub record Shared : Type 0 where
  pub phase : Phase
  pub configured : Bool
  pub stop_or_pause_sleeping : Bool
  pub play_sleeping : Bool
  pub close_requested : Bool
  pub pause_state : PauseState
  pub stop_requested : Bool
  pub flush_requested : Bool
  pub maxsize : ℕ
  pub playback_queue : List Entry
  pub playback_queue_size : ℕ
  pub has_audio : Bool

-- `speak_queue_state < BEFORE_PLAY` is `not (is_ready ...)`.
abbrev pub is_ready : Phase → Bool
is_ready idle = false
is_ready before_synth = false
is_ready before_play = true
is_ready speaking = true

abbrev pub is_idle : Phase → Bool
is_idle idle = true
is_idle _ = false

abbrev pub is_speaking : Phase → Bool
is_speaking speaking = true
is_speaking _ = false

-- The audio frames that an entry counts for.
abbrev pub frames_of : Entry → ℕ
frames_of (audio t f) = t.num_samples
frames_of _ = 0

-- `module_speak_queue_reset`
unfoldable pub module_speak_queue_reset : Shared → Shared
module_speak_queue_reset m = record m {
  phase = idle;
  pause_state = pause_off;
  stop_requested = false;
  flush_requested = false;
}

-- `playback_queue_push`, which always succeeds
unfoldable pub playback_queue_push : Entry → Shared → Shared
playback_queue_push e m = record m {
  playback_queue = m.playback_queue ++ e ∷ [];
  playback_queue_size = m.playback_queue_size + frames_of e;
}

-- `playback_queue_pop`, up to its return or its wait for data: it gives up when a stop is requested,
-- even if there are entries.
pub data Popped : Type 0 where
  no_data : Popped
  stop_seen : Popped
  popped : Entry → Shared → Popped

abbrev pub pop_first : List Entry → Shared → Popped
pop_first [] m = no_data
pop_first (e ∷ rest) m =
    popped e (record m {
      playback_queue = rest;
      playback_queue_size = m.playback_queue_size - frames_of e;
    })

unfoldable pub playback_queue_pop : Shared → Popped
playback_queue_pop m = if m.stop_requested then stop_seen else pop_first m.playback_queue m

-- `speak_queue_clear_playback_queue`
unfoldable pub clear_playback_queue : Shared → Shared
clear_playback_queue m = record m { playback_queue = []; playback_queue_size = 0 }
