-- ===== src/Playback/Threads.antt =====
-- src/common/speak_queue.c: the two threads and the callers, interleaved in any order.
use speechd.Base.{ℕ, zero, suc, ◌≤◌, Bool, Option, List, [], ◌∷◌}
use speechd.Playback.{Output, Shared}
use speechd.Playback.Calls.{Call, call_add_audio, perform, initial}
use speechd.Playback.Player.{PlayerAt, SoundFile, play}
use speechd.Playback.Stopper.{StopperAt, halt}

-- The log has the newest event first.
pub record System : Type 0 where
  pub shared : Shared
  pub player : PlayerAt
  pub stopper : StopperAt
  pub log : List Output

-- The events of a step, put before those in the log.
abbrev pub logged : List Output → List Output → List Output
logged [] log = log
logged (e ∷ es) log = logged es (e ∷ log)

unfoldable pub player_step : (List ℕ → Option SoundFile) → System → System
player_step sf_open s =
    let d = play sf_open s.player s.shared in
    record s { shared = d.shared; player = d.place; log = logged d.events s.log }

unfoldable pub stopper_step : System → System
stopper_step s =
    let d = halt s.stopper s.shared in
    record s { shared = d.shared; stopper = d.place; log = logged d.events s.log }

unfoldable pub caller_step : Call → System → System
caller_step c s = record s { shared = perform c s.shared }

abbrev pub started : Bool → ℕ → System
started has_audio maxsize = record {
  shared = initial has_audio maxsize;
  player = PlayerAt.head;
  stopper = StopperAt.top;
  log = [];
}

-- No call adds more than `chunk` audio frames.
abbrev pub IsSmall : ℕ → Call → Type 0
IsSmall chunk (call_add_audio t f) = t.num_samples ≤ chunk
IsSmall chunk _ = Unit

module _ (sf_open : List ℕ → Option SoundFile) (chunk : ℕ) where
  pub data Step (s : System) : System → Type 0 where
    plays : Step s (player_step sf_open s)
    stops : Step s (stopper_step s)
    calls : (c : Call) → IsSmall chunk c → Step s (caller_step c s)

  pub data Reach (has_audio : Bool) (maxsize : ℕ) : System → Type 0 where
    start : Reach has_audio maxsize (started has_audio maxsize)
    later : {s t : System} → Reach has_audio maxsize s → Step s t → Reach has_audio maxsize t

-- `n` steps of one thread, the others not moving.
unfoldable pub player_steps : (List ℕ → Option SoundFile) → ℕ → System → System
player_steps sf_open zero s = s
player_steps sf_open (suc n) s = player_steps sf_open n (player_step sf_open s)

unfoldable pub stopper_steps : ℕ → System → System
stopper_steps zero s = s
stopper_steps (suc n) s = stopper_steps n (stopper_step s)

-- What holds at the start and is kept by each thread and each call holds in every reachable state.
pub Reach-keeps {ℓ} :
    {P : System → Type ℓ} {sf_open : List ℕ → Option SoundFile} {chunk maxsize : ℕ}
    {has_audio : Bool}
    → P (started has_audio maxsize)
    → ((s : System) → P s → P (player_step sf_open s))
    → ((s : System) → P s → P (stopper_step s))
    → ((c : Call) (s : System) → IsSmall chunk c → P s → P (caller_step c s))
    → {s : System} → Reach sf_open chunk has_audio maxsize s
    → P s
Reach-keeps base f g h start = base
Reach-keeps base f g h (later {s} r plays) = f s (Reach-keeps base f g h r)
Reach-keeps base f g h (later {s} r stops) = g s (Reach-keeps base f g h r)
Reach-keeps base f g h (later {s} r (calls c small)) = h c s small (Reach-keeps base f g h r)
