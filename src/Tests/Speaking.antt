-- ===== src/Tests/Speaking.antt =====
-- src/server/speaking.c and src/server/server.c on a concrete state.
use speechd.Base.{true, ◌≡◌, refl, not, some, select, arith}
use speechd.Types.{Priority, text}
use speechd.Server.{State, done}
use speechd.Server.Clients.{get_client_settings_by_uid, get_client_uid_by_fd}
use speechd.Speaking.Queue.{stop_priority_from_uid, has_uid}
use speechd.Speaking.Queue.Loops.{stop_priority_from_uid_lem, cancel_reports}
use speechd.Speaking.Priorities.{speaking_get_queue}
use speechd.Speaking.Choose.{get_message_from_queues, priorities}
use speechd.Speaking.Choose.First.{Outcome, get_message_from_queues_lem}
use speechd.Speaking.Stop.{speaking_stop_all, speaking_cancel}
use speechd.Speaking.Stop.Block.{speaking_stop_all_keeps}
use speechd.Speaking.Stop.Cancel.{Cancelled, speaking_cancel-Cancelled}
use speechd.Speaking.Choose.{message_nto_speak}
use speechd.Speaking.Pause.{speaking_pause}
use speechd.Speaking.Pause.Held.{speaking_pause-holds}
use speechd.Base.Text.{codes}
use speechd.Speaking.Events.{is_sb_speaking}
use speechd.Speaking.Events.Reports.{Reported, is_sb_speaking-Reported}
use speechd.Samples.{client, sent, busy, busy-HasChosen}

stop_priority_from_uid_lem_example : stop_priority_from_uid busy.queues.p3 1 ≡ (
  select (λ m. not (has_uid 1 m)) busy.queues.p3,
  cancel_reports (select (has_uid 1) busy.queues.p3),
)
stop_priority_from_uid_lem_example = stop_priority_from_uid_lem busy.queues.p3 1

get_message_from_queues_lem_example : Outcome priorities busy (get_message_from_queues busy)
get_message_from_queues_lem_example = get_message_from_queues_lem busy

speaking_stop_all_keeps_example :
    (t : State) × (speaking_stop_all busy ≡ done t)
    × ((q : Priority) → speaking_get_queue q t ≡ speaking_get_queue q busy)
speaking_stop_all_keeps_example =
    speaking_stop_all_keeps busy text (sent 5 1 3 text) refl refl (omega arith)

speaking_cancel-Cancelled_example :
    (t : State) × (speaking_cancel 1 busy ≡ done t) × Cancelled 1 busy t
speaking_cancel-Cancelled_example = speaking_cancel-Cancelled 1 busy (omega arith) busy-HasChosen

speaking_pause-holds_example :
    ((speaking_pause 1 busy).0 ≡ 0)
    × (message_nto_speak (speaking_pause 1 busy).1 (sent 4 1 3 text) ≡ true)
unfolding get_client_settings_by_uid get_client_uid_by_fd
speaking_pause-holds_example =
    speaking_pause-holds 1 busy (client 1 5 text) (sent 4 1 3 text) (omega arith) refl

is_sb_speaking-Reported_example :
    Reported (sent 3 1 3 text) busy (is_sb_speaking (some (codes "__spd_end")) busy).1
is_sb_speaking-Reported_example =
    is_sb_speaking-Reported (some (codes "__spd_end")) busy (sent 3 1 3 text) refl
