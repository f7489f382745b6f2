-- ===== src/Parse/Command.antt =====
-- src/server/parse.c: the commands that stop, cancel, pause and resume, and those that say a
-- character, a key or a sound icon.
pub mod Named
pub mod Said
use speechd.Base.{
  ℕ, zero, suc, ◌==◌, Bool, true, false, ◌&&◌, Option, none, some, List, [], ◌∷◌, length,
  if◌then◌else◌,
}
use speechd.Base.Int.{ℤ, pos, negsuc}
use speechd.Base.Text.{codes, same_bytes}
use speechd.Types.{MessageType, msg_text, msg_sound_icon, msg_char, msg_key, msg_spell}
use speechd.Message.{Message}
use speechd.Server.{State, Run, done, fault, emit, post, ◌>>=◌}
use speechd.Server.Clients.{get_client_uid_by_fd}
use speechd.Speaking.Enqueue.{queue_message}
use speechd.Speaking.Pause.{speaking_resume, speaking_resume_all}
use speechd.Speaking.Stop.{speaking_stop, speaking_stop_all, speaking_cancel, speaking_cancel_all}
use speechd.Parse.Data.{Sock, Validator}
use speechd.Parse.Param.{get_param, isanum, atoi}

pub data Answer : Type 0 where
  ok_stopped ok_canceled ok_paused ok_resumed : Answer
  err_missing_parameter err_internal err_id_not_exist err_parameter_invalid : Answer
  err_invalid_encoding : Answer
  ok_message_queued : ℤ → Answer

-- Whom a command is about.
pub data Target : Type 0 where
  all_clients : Target
  client : ℕ → Target
  refused : Answer → Target

-- `uid <= 0`
abbrev target_of_id : ℤ → Target
target_of_id (pos (suc n)) = client (suc n)
target_of_id _ = refused err_id_not_exist

-- The tests that `parse_stop`, `parse_cancel`, `parse_pause` and `parse_resume` share.
unfoldable pub target_of : List ℕ → ℕ → State → Target
target_of who fd s =
    if same_bytes who (codes "all")
    then all_clients
    else if same_bytes who (codes "self")
    then (if get_client_uid_by_fd s fd == 0
        then refused err_internal
        else client (get_client_uid_by_fd s fd))
    else if isanum who
    then target_of_id (atoi who)
    else refused err_parameter_invalid

-- `strdown` is `g_ascii_strdown`.
unfoldable pub read_target : (List ℕ → List ℕ) → List ℕ → ℕ → State → Target
read_target strdown line fd s = elim (get_param strdown line 1) [
  | none ↦ refused err_missing_parameter
  | some who ↦ target_of who fd s
]

-- `parse_stop`
unfoldable pub parse_stop : (List ℕ → List ℕ) → List ℕ → ℕ → State → Run (Answer × State)
parse_stop strdown line fd s = elim (read_target strdown line fd s) [
  | all_clients ↦ do t ← speaking_stop_all s; done (ok_stopped, t)
  | client uid ↦ do t ← speaking_stop uid s; done (ok_stopped, t)
  | refused a ↦ done (a, s)
]

-- `parse_cancel`
unfoldable pub parse_cancel : (List ℕ → List ℕ) → List ℕ → ℕ → State → Run (Answer × State)
parse_cancel strdown line fd s = elim (read_target strdown line fd s) [
  | all_clients ↦ done (ok_canceled, speaking_cancel_all s)
  | client uid ↦ do t ← speaking_cancel uid s; done (ok_canceled, t)
  | refused a ↦ done (a, s)
]

-- `parse_pause`: the speaking thread pauses on request.
unfoldable pub parse_pause : (List ℕ → List ℕ) → List ℕ → ℕ → State → Answer × State
parse_pause strdown line fd s = elim (read_target strdown line fd s) [
  | all_clients ↦
      (ok_paused, emit (post ∷ []) (record s { pause_requested = 1; pause_requested_fd = fd }))
  | client uid ↦ (
    ok_paused,
    emit (post ∷ [])
        (record s { pause_requested = 2; pause_requested_fd = fd; pause_requested_uid = uid }),
  )
  | refused a ↦ (a, s)
]

-- `parse_resume`
unfoldable pub parse_resume : (List ℕ → List ℕ) → List ℕ → ℕ → State → Answer × State
parse_resume strdown line fd s = elim (read_target strdown line fd s) [
  | all_clients ↦ (ok_resumed, (speaking_resume_all s).1)
  | client uid ↦ (ok_resumed, (speaking_resume uid s).1)
  | refused a ↦ (a, s)
]

-- `type == SPD_MSGTYPE_CHAR || type == SPD_MSGTYPE_KEY`
abbrev pub has_space : MessageType → Bool
has_space msg_char = true
has_space msg_key = true
has_space _ = false

-- The name of the space bar stands for a space.
abbrev pub event_text : MessageType → List ℕ → List ℕ
event_text type param =
    if has_space type && same_bytes param (codes "space") then codes " " else param

-- The part of `parse_general_event` behind the checks; `blank` is what `g_malloc` returns.
unfoldable pub queue_event :
    Message → List ℕ → ℕ → Sock → MessageType → State → Run (Answer × State)
queue_event blank param fd sock type s = do
  (id, t) ←
      queue_message (record blank { addr = s.next_addr; buf = param; bytes = length param })
        (pos fd) type sock.inside_block (record s { next_addr = suc s.next_addr })
  done (ok_message_queued id, t)

-- `parse_general_event`, which `parse_snd_icon`, `parse_char` and `parse_key` call.
unfoldable pub parse_general_event :
    Validator → Message → List ℕ → ℕ → Sock → MessageType → State → Run (Answer × State)
unfolding queue_event
parse_general_event utf8_validate blank line fd sock type s =
    elim (get_param (λ param. param) line 1) [
      | none ↦ done (err_missing_parameter, s)
      | some [] ↦ done (err_missing_parameter, s)
      | some (c ∷ param) ↦
          if utf8_validate line (length line)
          then queue_event blank (event_text type (c ∷ param)) fd sock type s
          else done (err_invalid_encoding, s)
    ]
