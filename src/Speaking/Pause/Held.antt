-- ===== src/Speaking/Pause/Held.antt =====
-- Whose messages are held back after a client was paused or resumed.
use mathlib.Core.Path.{ap₂}
use speechd.Base.{ℕ, ◌==◌, ◌≡◌, ◌≢◌, ◌∙◌, true, not, Option, none, some, arith, if◌then◌else◌}
use speechd.Message.{Message, Settings}
use speechd.Server.{State}
use speechd.Server.Clients.{
  get_client_uid_by_fd, get_client_settings_by_fd, get_client_settings_by_uid, write_settings,
  lookup-insert,
}
use speechd.Server.Output.{output_pause}
use speechd.Speaking.Choose.{is_held_on, message_nto_speak}
use speechd.Speaking.Pause.{include_current, pause_current, speaking_pause}

-- The client that a message belongs to now; 0 if its connection is gone.
abbrev client_on : State → Option ℕ → ℕ
client_on s none = 0
client_on s (some fd) = get_client_uid_by_fd s fd

abbrev pub client_of : State → Message → ℕ
client_of s m = client_on s m.settings.fd

-- The state `t` has the tables of clients of `s`.
record SameTables (s t : State) : Type 0 where
  uids : t.fd_uid ≡ s.fd_uid
  settings : t.fd_settings ≡ s.fd_settings
  max : t.max_fd ≡ s.max_fd

message_nto_speak-SameTables :
    (s t : State) (m : Message) → SameTables s t → message_nto_speak t m ≡ message_nto_speak s m
unfolding message_nto_speak get_client_settings_by_fd get_client_uid_by_fd
message_nto_speak-SameTables s t m h =
    ap₂ (λ a b. message_nto_speak (record s { fd_uid = a; fd_settings = b }) m) h.uids h.settings

is_held_on-write_settings :
    (uid : ℕ) (c : Settings) (s : State) (fd : Option ℕ)
    → uid ≢ 0
    → is_held_on (write_settings uid c s) fd
      ≡ (if client_on s fd == uid then not (c.paused == 0) else is_held_on s fd)
unfolding message_nto_speak get_client_settings_by_fd get_client_uid_by_fd
is_held_on-write_settings uid c s none h = ground arith
is_held_on-write_settings uid c s (some fd) h =
    ground (arith, lookup-insert uid (get_client_uid_by_fd s fd) c s.fd_settings)

pause_current-SameTables : (s : State) → SameTables s (pause_current s)
unfolding pause_current include_current output_pause
pause_current-SameTables s = ground arith

-- What `speaking_pause` does to the tables: the client's settings say that it is paused.
speaking_pause-SameTables :
    (uid : ℕ) (s : State) (c : Settings)
    → get_client_settings_by_uid s uid ≡ some c
    → SameTables (write_settings uid (record c { paused = 1 }) s) (speaking_pause uid s).1
      × ((speaking_pause uid s).0 ≡ 0)
unfolding speaking_pause
speaking_pause-SameTables uid s c e =
    let t = write_settings uid (record c { paused = 1 }) s in
    rw (e, speaking_pause) (ground (arith, pause_current-SameTables t))

-- Pausing a known client succeeds, holds back exactly its messages, and changes nothing for the
-- messages of all others.
pub speaking_pause-holds :
    (uid : ℕ) (s : State) (c : Settings) (m : Message)
    → uid ≢ 0
    → get_client_settings_by_uid s uid ≡ some c
    → ((speaking_pause uid s).0 ≡ 0)
      × (message_nto_speak (speaking_pause uid s).1 m
          ≡ (if client_of s m == uid then true else message_nto_speak s m))
unfolding message_nto_speak
speaking_pause-holds uid s c m h e =
    let (tables, err) = speaking_pause-SameTables uid s c e in
    (
      err,
      message_nto_speak-SameTables (write_settings uid (record c { paused = 1 }) s)
            (speaking_pause uid s).1 m tables
          ∙ is_held_on-write_settings uid (record c { paused = 1 }) s m.settings.fd h,
    )
