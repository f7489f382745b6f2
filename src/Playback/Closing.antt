-- ===== src/Playback/Closing.antt =====
-- src/common/speak_queue.c: closing the module ends both threads.
use speechd.Base.{ℕ, ◌-◌, ◌≤◌, ◌≡◌, true}
use speechd.Playback.{Shared}
use speechd.Playback.Player.{PlayerAt}
use speechd.Playback.Stopper.{
  StopperAt, top, waiting, woken, silencing, hushing, lulling, cancelling, clearing, resetting,
  telling, gone,
}
use speechd.Playback.Sleeping.{is_asleep}
use speechd.Playback.Halting.{steps_left}

-- The steps that the thread for stops has left once the module is closed.
abbrev steps_to_gone : StopperAt → ℕ
steps_to_gone gone = 0
steps_to_gone top = 1
steps_to_gone waiting = 1
steps_to_gone (telling p) = 2
steps_to_gone resetting = 3
steps_to_gone clearing = 4
steps_to_gone cancelling = 5
steps_to_gone hushing = 6
steps_to_gone lulling = 6
steps_to_gone silencing = 7
steps_to_gone woken = 8

-- The module is closed, and the playback thread still sees a request to stop.
record IsClosed (m : Shared) (p : PlayerAt) : Type 0 where
  stop : m.stop_requested ≡ true
  close : m.close_requested ≡ true
  sleeps : m.play_sleeping ≡ is_asleep p

record IsNearer (m : Shared) (p p' : PlayerAt) : Type 0 where
  closed : IsClosed m p'
  left : steps_left p' ≤ steps_left p - 1

-- The module is closed and the playback thread has returned.
record IsClosing (m : Shared) (q : StopperAt) : Type 0 where
  close : m.close_requested ≡ true
  sleeps : m.play_sleeping ≡ true
  asked : q ≡ waiting → m.stop_requested ≡ true

record IsLess (m : Shared) (q q' : StopperAt) : Type 0 where
  closing : IsClosing m q'
  left : steps_to_gone q' ≤ steps_to_gone q - 1
