-- ===== src/Server.antt =====
-- The state that the threads of the server share: the globals of src/server/speechd.h, of
-- src/server/speaking.c and the flags of src/server/output.c that its callers depend on.
pub mod Clients
pub mod Output
pub mod Modules
use speechd.Base.{
  ℕ, ◌≡◌, refl, Bool, Option, none, some, List, ◌++◌, [], ◌∷◌, String, if◌then◌else◌,
}
use speechd.Base.Int.{ℤ}
use speechd.Types.{Priority}
use speechd.Message.{Settings, Message, has_flag, flag_cancel}

-- What the client of a message is told of it.
pub data Event : Type 0 where
  begin end pause resume cancel : Event
  index_mark : List ℕ → Event

-- What the server does to the world, in order.
pub data Effect : Type 0 where
  -- A notification: event, socket of the message, id of the message, id of its client.
  report : Event → Option ℕ → ℕ → ℕ → Effect
  -- A byte on the pipe that wakes up the speaking thread.
  post : Effect
  -- A command on the pipe of the speaking module.
  send_stop send_pause : Effect
  -- Calls into the play-back queue.
  queue_stop queue_flush queue_pause : Effect

-- `TSpeechDQueue`
pub record Queues : Type 0 where
  pub p1 : List Message
  pub p2 : List Message
  pub p3 : List Message
  pub p4 : List Message
  pub p5 : List Message

-- What `OutputModule` holds that matters here: its name, and whether the server plays its audio.
pub record Module : Type 0 where
  pub name : String
  pub audio : Bool

pub record State : Type 0 where
  pub queues : Queues
  pub paused_list : List Message
  pub last_p5_block : List Message
  pub current_message : Option Message
  -- The static variable starts as 0, which is no priority: none.
  pub highest_priority : Option Priority
  pub speaking : Bool
  pub speaking_uid : ℕ
  pub speaking_gid : ℕ
  pub poll_count : ℕ
  pub pause_requested : ℕ
  pub pause_requested_fd : ℕ
  pub pause_requested_uid : ℕ
  pub resume_requested : Bool
  -- output.c
  pub speaking_module : Option Module
  pub end_queued : Bool
  pub stop_requested : Bool
  pub pause_asked : Bool
  -- Whether a write to the pipe of the speaking module goes through.
  pub pipe_open : Bool
  -- The hash tables of clients, and the counters.
  pub fd_uid : List (ℕ × ℕ)
  pub fd_settings : List (ℕ × Settings)
  pub max_fd : ℕ
  pub max_uid : ℕ
  pub last_message_id : ℕ
  -- The address that the next allocated message gets.
  pub next_addr : ℕ
  pub log : List Effect

-- How a call can end the process: `FATAL`, a failed assertion, a read through a null pointer.
pub data Fault : Type 0 where
  fatal assertion null_pointer : Fault

pub data Run {ℓ} (A : Type ℓ) : Type ℓ where
  done : A → Run A
  fault : Fault → Run A

infixl 5 ◌>>=◌
abbrev pub ◌>>=◌ {ℓ κ} : {A : Type ℓ} {B : Type κ} → Run A → (A → Run B) → Run B
done a >>= f = f a
fault e >>= f = fault e

-- What holds of the result if the process lives on.
abbrev pub Ensures {ℓ κ} : {A : Type ℓ} → (A → Type κ) → Run A → Type κ
Ensures P (done a) = P a
Ensures P (fault e) = Unit

pub Ensures-map {ℓ κ μ} :
    {A : Type ℓ} {P : A → Type κ} {Q : A → Type μ} (r : Run A)
    → ((a : A) → P a → Q a)
    → Ensures P r
    → Ensures Q r
Ensures-map (done a) f h = f a h
Ensures-map (fault e) f h = tt

pub Ensures-bind {ℓ κ μ ν} :
    {A : Type ℓ} {B : Type κ} {P : A → Type μ} (Q : B → Type ν) (r : Run A) (f : A → Run B)
    → Ensures P r
    → ((a : A) → P a → Ensures Q (f a))
    → Ensures Q (r >>= f)
Ensures-bind Q (done a) f h k = k a h
Ensures-bind Q (fault e) f h k = tt

-- The process lives on.
abbrev pub Returns {ℓ} : {A : Type ℓ} → Run A → Type 0
Returns (done a) = Unit
Returns (fault e) = ⊥

pub Returns-bind {ℓ κ μ} :
    {A : Type ℓ} {B : Type κ} (P : A → Type μ) (r : Run A) (f : A → Run B)
    → Returns r
    → Ensures P r
    → ((a : A) → P a → Returns (f a))
    → Returns (r >>= f)
Returns-bind P (done a) f r h k = k a h
Returns-bind P (fault e) f r h k = absurd r

pub Returns-Ensures {ℓ κ} :
    {A : Type ℓ} (P : A → Type κ) (r : Run A)
    → Returns r
    → Ensures P r
    → (a : A) × (r ≡ done a) × P a
Returns-Ensures P (done a) r h = (a, refl, h)
Returns-Ensures P (fault e) r h = absurd r

-- A pointer that the code follows without a test.
abbrev pub deref {ℓ} : {A : Type ℓ} → Option A → Run A
deref none = fault null_pointer
deref (some a) = done a

-- Something is done to the world.
abbrev pub emit : List Effect → State → State
emit es s = record s { log = s.log ++ es }

-- `report_cancel`, with the test of the event mask that stands before each call of it.
abbrev pub cancel_report : Message → List Effect
cancel_report m =
    if has_flag m.settings.notification flag_cancel
    then report cancel m.settings.fd m.id m.settings.uid ∷ []
    else []
