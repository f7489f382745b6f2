-- ===== src/Speaking/Loop.antt =====
-- src/server/speaking.c: one round of the loop of speak(), the thread that takes the messages out of the
-- queues and has them spoken.
pub mod Silent
pub mod Spoken
pub mod Returns
pub mod Postponed
use speechd.Base.{
  ℕ, zero, suc, ◌+◌, ◌==◌, ltb, leb, Bool, true, false, not, ◌&&◌, ◌||◌, Option, none, some, List,
  [], ◌∷◌, ◌++◌, last?, String, str_eq, some_of, if◌then◌else◌,
}
use speechd.Base.Int.{ℤ, pos, negsuc}
use speechd.Types.{Priority, message, text, notification, progress, MessageType, msg_text, msg_char}
use speechd.Message.{Message, Settings}
use speechd.Server.{State, Queues, Module, emit, post, Run, done, fault, fatal, null_pointer, ◌>>=◌}
use speechd.Server.Clients.{get_client_settings_by_uid, remove_client_settings_by_uid}
use speechd.Server.Modules.{OutputModule, Outputs, get_output_module, escape_line_dots}
use speechd.Speaking.Queue.{client_has_messages}
use speechd.Speaking.Priorities.{
  speaking_get_queue, speaking_set_queue, stop_priority, stop_priority_older_than,
}
use speechd.Speaking.Choose.{message_nto_speak, get_message_from_queues}
use speechd.Speaking.Pause.{speaking_pause, speaking_pause_all}
use speechd.Speaking.Events.{is_sb_speaking}
use speechd.Speaking.Reload.{resume}
use speechd.IndexMarks.{Uchar, insert_index_marks}

-- What poll() reports of the pipe of the output module, and what the module says if it speaks.
pub data Activity : Type 0 where
  quiet hung_up : Activity
  says : Option (List ℕ) → Activity

-- What a round meets: whether the byte of a wake-up is there but cannot be read, the activity of the
-- module, and the result of the commands that output_speak sends.
pub record Met : Type 0 where
  pub wake_up_lost : Bool
  pub activity : Activity
  pub spoken : ℤ

-- g_utf8_normalize, the characters of a text, g_unichar_isspace, and insert_symbols of
-- src/server/symbols.c.
pub record TextTools : Type 0 where
  pub normalize : List ℕ → Option (List ℕ)
  pub characters : List ℕ → List Uchar
  pub isspace : ℕ → Bool
  pub insert_symbols : Message → Bool → List ℕ

-- `sortbyuid` gives a number above 0.
abbrev is_behind : Message → Message → Bool
is_behind a b = ltb b.id a.id

-- `g_list_insert_sorted`
unfoldable pub insert_sorted : Message → List Message → List Message
insert_sorted m [] = m ∷ []
insert_sorted m (x ∷ queue) =
    let rest = insert_sorted m queue in if is_behind m x then x ∷ rest else m ∷ x ∷ queue

-- The `while` that moves a block into another queue.
unfoldable pub move_block : List Message → List Message → List Message
move_block [] queue = queue
move_block (m ∷ block) queue = move_block block (insert_sorted m queue)

-- The branch for a postponed block of progress messages, whose last message is given.
unfoldable pub postponed : Message → State → State
postponed m s =
    let moved = speaking_set_queue message (move_block s.last_p5_block s.queues.p2) s in
    emit (post ∷ []) (
      stop_priority progress (
        stop_priority notification (
          stop_priority_older_than text m.id
            (record moved { last_p5_block = []; highest_priority = some message }))))

-- `punct_missing`
unfoldable pub punct_missing : String → Bool
punct_missing name = some_of (str_eq name) (
    "flite" ∷ "dtk-generic" ∷ "epos-generic" ∷ "llia_phon-generic" ∷ "mary-generic"
    ∷ "swift-generic" ∷ "pico" ∷ [])

abbrev has_symbols : MessageType → Bool
has_symbols msg_text = true
has_symbols msg_char = true
has_symbols _ = false

abbrev is_text : MessageType → Bool
is_text msg_text = true
is_text _ = false

-- Normalization and symbols; none if the text is no UTF-8.
unfoldable pub with_symbols : TextTools → Message → Bool → Option Message
with_symbols tools m missing =
    if has_symbols m.settings.type
    then elim (tools.normalize m.buf) [
      | none ↦ none
      | some buf ↦ some (record m { buf = tools.insert_symbols (record m { buf = buf }) missing })
    ]
    else some m

unfoldable pub with_marks : TextTools → Message → Message
with_marks tools m =
    if is_text m.settings.type
    then record m {
      buf = insert_index_marks tools.isspace (tools.characters m.buf) m.settings.ssml_mode;
    }
    else m

-- `output_speak`: the dots are escaped, the module and the client are recorded as speaking, and if
-- the commands go through (`ret` is 0) the flags of the output layer are reset. The number of bytes, which is set
-- to -1 and not looked at again, stays.
unfoldable pub output_speak : ℤ → OutputModule → Message → State → Message × State
output_speak ret output m s =
    let new = record m { buf = escape_line_dots m.buf } in
    let t = record s {
      speaking_module = some output.loaded;
      speaking_uid = m.settings.uid;
      speaking_gid = m.settings.reparted;
    } in
    elim ret [
      | pos zero ↦
          (new, record t { end_queued = false; stop_requested = false; pause_asked = false })
      | _ ↦ (new, t)
    ]

-- The settings of a client that is gone and of which nothing waits are removed, unless the new message
-- is of this client.
unfoldable pub forget_settings : Option Settings → ℕ → Message → State → Run State
forget_settings none uid new s = fault null_pointer
forget_settings (some c) uid new s =
    if not c.active && (not (client_has_messages s uid) && not (uid == new.settings.uid))
    then done (remove_client_settings_by_uid uid s)
    else done s

-- The message that was spoken before is freed, unless it was paused.
unfoldable pub replace_message : Option Message → Message → State → Run State
replace_message none new s = done s
replace_message (some old) new s =
    if old.settings.paused_while_speaking
    then done s
    else forget_settings (get_client_settings_by_uid s old.settings.uid) old.settings.uid new s

-- A postponed block is dropped when one of its messages is spoken.
unfoldable pub drop_spoken_block : Message → State → State
drop_spoken_block m s = elim (last? s.last_p5_block) [
  | none ↦ s
  | some x ↦
      if x.settings.reparted == m.settings.reparted then record s { last_p5_block = [] } else s
]

-- The rest of the round, once the module has accepted the message.
unfoldable pub started_speaking : Message → State → Run State
started_speaking m s =
    let t = record s { speaking = true; poll_count = 2; speaking_uid = m.settings.uid } in
    replace_message s.current_message m t >>= λ u.
    done (drop_spoken_block m (record u { current_message = some m }))

-- By the result of `output_speak`. A message that failed is lost.
unfoldable pub spoken_or_lost : ℤ → Message → State → Run State
spoken_or_lost (pos zero) m s = started_speaking m s
spoken_or_lost _ m s = done s

-- With the text that is spoken, if it could be prepared.
unfoldable pub speak_text : ℤ → OutputModule → Option Message → State → Run State
speak_text ret output none s = done s
speak_text ret output (some m) s =
    let (new, t) = output_speak ret output m s in spoken_or_lost ret new t

unfoldable pub prepare : TextTools → Message → OutputModule → Option Message
prepare tools m output = elim (with_symbols tools m (punct_missing output.loaded.name)) [
  | none ↦ none
  | some x ↦ some (with_marks tools x)
]

-- With the output module, if there is one.
unfoldable pub speak_by : TextTools → ℤ → Message → Option OutputModule → State → Run State
speak_by tools ret m none s = done s
speak_by tools ret m (some output) s = speak_text ret output (prepare tools m output) s

-- The message that was chosen, if any. That its client is paused is tested once more.
unfoldable pub speak_chosen : TextTools → Outputs → ℤ → Option Message → State → Run State
speak_chosen tools outputs ret none s = done s
speak_chosen tools outputs ret (some m) s =
    if message_nto_speak s m
    then done (record s { paused_list = s.paused_list ++ m ∷ [] })
    else speak_by tools ret m (get_output_module outputs m) s

-- From the lock on: a postponed block, given by its last message, or the next message.
unfoldable pub take_next_or :
    TextTools → Outputs → ℤ → Option Message → List Message → State → Run State
take_next_or tools outputs ret (some m) [] s = done (postponed m s)
take_next_or tools outputs ret _ _ s =
    speak_chosen tools outputs ret (get_message_from_queues s).0 (get_message_from_queues s).1

unfoldable pub take_next : TextTools → Outputs → ℤ → State → Run State
take_next tools outputs ret s = take_next_or tools outputs ret (last? s.last_p5_block) s.queues.p5 s

-- A request to pause: 1 is for all clients, 2 for one.
unfoldable pub handle_pause : State → State
handle_pause s =
    let t = if s.pause_requested == 1 then (speaking_pause_all s).1 else s in
    let u = if t.pause_requested == 2 then (speaking_pause t.pause_requested_uid t).1 else t in
    record u { pause_requested = 0 }

-- The part behind the reading of the pipes.
unfoldable pub act : TextTools → Outputs → ℤ → State → Run State
act tools outputs ret s =
    if not (s.pause_requested == 0)
    then done (handle_pause s)
    else if s.speaking
    then done s
    else if s.resume_requested
    then resume s >>= take_next tools outputs ret
    else take_next tools outputs ret s

unfoldable pub on_activity : Activity → State → Run State
on_activity quiet s = done s
on_activity hung_up s = fault fatal
on_activity (says mark) s = done (is_sb_speaking mark s).1

-- What the module says is heard only while its pipe is polled.
unfoldable pub listen : Activity → State → Run State
listen activity s = if ltb 1 s.poll_count then on_activity activity s else done s

-- One round of the loop of `speak`.
unfoldable pub speak_round : TextTools → Outputs → Met → State → Run State
speak_round tools outputs met s =
    if met.wake_up_lost then fault fatal else listen met.activity s >>= act tools outputs met.spoken
