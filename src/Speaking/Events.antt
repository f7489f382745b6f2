-- ===== src/Speaking/Events.antt =====
-- src/server/speaking.c: what the speaking module reports (`is_sb_speaking`).
pub mod Reports
pub mod Spoken
pub mod Known
use speechd.Base.{ℕ, true, false, Option, none, some, List, [], ◌∷◌, if◌then◌else◌}
use speechd.Base.Int.{ℤ, pos, negsuc}
use speechd.Base.Text.{codes, same_bytes, has_prefix}
use speechd.Message.{
  Message, has_flag, flag_begin, flag_end, flag_index_marks, flag_cancel, flag_pause, flag_resume,
}
use speechd.Server.{
  Event, Effect, State, emit, report, begin, end, pause, resume, cancel, index_mark, post,
}
use speechd.Speaking.Pause.{write_current}

-- What `index_mark` says. `SD_MARK_BODY` is "__spd_".
pub data Report : Type 0 where
  silent began ended paused stopped : Report
  own_mark client_mark : List ℕ → Report

pub read_mark : List ℕ → Report
read_mark mark =
    if same_bytes mark (codes "no")
    then silent
    else if same_bytes mark (codes "__spd_begin")
    then began
    else if same_bytes mark (codes "__spd_end")
    then ended
    else if same_bytes mark (codes "__spd_paused")
    then paused
    else if same_bytes mark (codes "__spd_stopped")
    then stopped
    else if has_prefix (codes "__spd_") mark
    then own_mark mark
    else client_mark mark

-- `if (settings->notification & flag) report_...(current_message);`
abbrev pub notify : ℕ → Event → Message → List Effect
notify flag e m =
    if has_flag m.settings.notification flag
    then report e m.settings.fd m.id m.settings.uid ∷ []
    else []

abbrev silence : State → State
silence s = record s { speaking = false; poll_count = 1 }

abbrev clear_paused : Message → Message
clear_paused m = record m { settings = record (m.settings) { paused_while_speaking = false } }

abbrev set_mark : List ℕ → Message → Message
set_mark mark m = record m { settings = record (m.settings) { index_mark = some mark } }

-- The branches for a mark that is not "no".
on_report : Report → Message → State → State
on_report silent m s = s
on_report began m s =
    if m.settings.paused_while_speaking
    then emit (notify flag_resume resume m)
        (write_current clear_paused m (record s { speaking = true }))
    else emit (notify flag_begin begin m) (record s { speaking = true })
on_report ended m s = emit (post ∷ []) (emit (notify flag_end end m) (silence s))
on_report paused m s = record (emit (notify flag_pause pause m) (silence s)) {
  current_message = none;
}
on_report stopped m s = emit (post ∷ []) (emit (notify flag_cancel cancel m) (silence s))
on_report (own_mark mark) m s = write_current (set_mark mark) m s
on_report (client_mark mark) m s = emit (notify flag_index_marks (index_mark mark) m) s

-- The end of the function.
abbrev forget_module : State → State
forget_module s = if s.speaking then s else record s { speaking_module = none }

abbrev with_result : State → ℤ × State
with_result s = (if s.speaking then pos 1 else pos 0, s)

pub on_mark : Report → Message → State → ℤ × State
unfolding on_report
on_mark silent m s = with_result s
on_mark r m s = with_result (forget_module (on_report r m s))

-- `is_sb_speaking`; `mark` is what `output_is_speaking` stores. The result is -1, or `SPEAKING`.
pub is_sb_speaking : Option (List ℕ) → State → ℤ × State
unfolding on_mark
is_sb_speaking mark s = elim s.speaking_module [
  | none ↦ with_result (record s { speaking = false; speaking_module = none })
  | some output ↦ elim s.current_message [
    | none ↦ (negsuc 0, s)
    | some m ↦ elim mark [ none ↦ (pos 0, silence s) | some text ↦ on_mark (read_mark text) m s ]
  ]
]
