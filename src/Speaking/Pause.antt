-- ===== src/Speaking/Pause.antt =====
-- src/server/speaking.c: pausing and resuming clients.
pub mod Held
pub mod Spoken
use speechd.Base.{
  ℕ, zero, suc, ◌+◌, ◌==◌, ltb, Bool, true, false, not, Option, none, some, List, [], ◌∷◌, ◌++◌,
  map, some_of, if◌then◌else◌,
}
use speechd.Message.{Message, Settings}
use speechd.Server.{State, emit, post}
use speechd.Server.Clients.{get_client_uid_by_fd, get_client_settings_by_uid, write_settings}
use speechd.Server.Output.{output_pause}

-- A write to the message that `current_message` points at: the paused list may point at it too.
abbrev pub write_current : (Message → Message) → Message → State → State
write_current f m s = record s {
  current_message = some (f m);
  paused_list = map (λ x. if x.addr == m.addr then f x else x) s.paused_list;
}

-- `g_list_find`: a pointer to the message is in the list.
abbrev pub is_listed : Message → List Message → Bool
is_listed m = some_of (λ x. x.addr == m.addr)

mark_paused : Message → Message
mark_paused m = record m {
  settings = record (m.settings) { paused = 2; paused_while_speaking = true };
}

-- The end of `speaking_pause`: the current message goes to the paused list, once.
include_current : Message → State → State
unfolding mark_paused
include_current m s =
    let t = write_current mark_paused m s in
    if is_listed m t.paused_list
    then t
    else record t { paused_list = t.paused_list ++ (mark_paused m ∷ []) }

-- The part for the client that is speaking.
pause_current : State → State
unfolding include_current
pause_current s = elim s.current_message [
  | none ↦ s
  | some m ↦ let (sent, t) = output_pause s in if sent then include_current m t else t
]

-- The result is 1 if the client is unknown.
pub speaking_pause : ℕ → State → ℕ × State
unfolding pause_current
speaking_pause uid s = elim (get_client_settings_by_uid s uid) [
  | none ↦ (1, s)
  | some c ↦
      let t = write_settings uid (record c { paused = 1 }) s in
      if t.speaking_uid == uid
      then (if t.speaking then (0, pause_current t) else (0, t))
      else (0, t)
]

-- The loop over the descriptors from `i` on, with the number of failures.
over_clients : (ℕ → State → ℕ × State) → ℕ → ℕ → ℕ → State → ℕ × State
over_clients act zero i err s = (err, s)
over_clients act (suc n) i err s =
    let uid = get_client_uid_by_fd s i in
    let (e, t) = act uid s in
    let skipped = over_clients act n (suc i) err s in
    let acted = over_clients act n (suc i) (err + e) t in if uid == 0 then skipped else acted

-- `if (err > 0) return 1; else return 0;`
abbrev summary : ℕ × State → ℕ × State
summary (err, s) = (if ltb 0 err then 1 else 0, s)

pub speaking_pause_all : State → ℕ × State
unfolding over_clients
speaking_pause_all s = summary (over_clients speaking_pause s.max_fd 1 0 s)

pub speaking_resume : ℕ → State → ℕ × State
speaking_resume uid s = elim (get_client_settings_by_uid s uid) [
  | none ↦ (1, s)
  | some c ↦ (
    0,
    emit (post ∷ [])
        (record (write_settings uid (record c { paused = 0 }) s) { resume_requested = true }),
  )
]

pub speaking_resume_all : State → ℕ × State
unfolding over_clients
speaking_resume_all s = summary (over_clients speaking_resume s.max_fd 1 0 s)
