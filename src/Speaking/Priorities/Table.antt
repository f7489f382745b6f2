-- ===== src/Speaking/Priorities/Table.antt =====
-- What is left in each queue after `resolve_priorities`.
use speechd.Base.{
  ℕ, ◌≡◌, refl, sym, last?-eq_none, ◌==◌, Bool, not, ◌&&◌, none, some, List, [], ◌∷◌, last?,
  drop_last, select, if◌then◌else◌, arith, Option-cases, inl, inr,
}
use speechd.Types.{Priority, important, message, text, notification, progress}
use speechd.Message.{Message}
use speechd.Server.{Queues, State}
use speechd.Server.Output.{output_stop}
use speechd.Server.Output.Frame.{output_stop-SameQueues}
use speechd.Speaking.Queue.Loops.{empty_queue_lem}
use speechd.Speaking.Priorities.{
  speaking_get_queue, speaking_set_queue, set_in, is_highest, stop_priority,
  stop_priority_except_first, except_first_of, keep_block, keep_last_progress, resolve_priorities,
}

abbrev pub in_block : ℕ → Message → Bool
in_block gid m = m.settings.reparted == gid

keep_block_lem :
    (gid : ℕ) (queue : List Message) → keep_block gid queue ≡ select (in_block gid) queue
unfolding keep_block
keep_block_lem gid [] = refl
keep_block_lem gid (m ∷ queue) = rw (keep_block_lem gid queue)

-- The last message of a queue, or the whole block that it belongs to.
pub last_block : List Message → List Message
last_block queue = elim (last? queue) [
  | none ↦ []
  | some m ↦
      if m.settings.reparted == 0 then m ∷ [] else select (in_block m.settings.reparted) queue
]

-- The last message alone.
pub last_only : List Message → List Message
last_only queue = elim (last? queue) [ none ↦ [] | some m ↦ m ∷ [] ]

-- The rules of interaction between priorities, as a table of what each queue keeps.
abbrev pub resolved : Priority → Bool → Bool → Queues → Queues
resolved important speaking other q = record q { p4 = []; p5 = [] }
resolved message speaking other q = record q { p3 = []; p4 = []; p5 = [] }
resolved text speaking other q = record q { p3 = last_block q.p3; p4 = []; p5 = [] }
resolved notification speaking other q = record q {
  p4 = if speaking && other then [] else last_block q.p4;
}
resolved progress speaking other q = record q {
  p4 = [];
  p5 = if speaking then last_only q.p5 else q.p5;
}

-- A step that changes the queues by a function, and none of what the later steps look at.
pub record Steps (f : Queues → Queues) (s t : State) : Type 0 where
  pub queues : t.queues ≡ f s.queues
  pub speaking : t.speaking ≡ s.speaking
  pub highest : t.highest_priority ≡ s.highest_priority
  pub last_p5 : t.last_p5_block ≡ s.last_p5_block

pub stop_priority-Steps : (p : Priority) (s : State) → Steps (set_in p []) s (stop_priority p s)
unfolding stop_priority
stop_priority-Steps p s =
    ground (arith, empty_queue_lem (speaking_get_queue p s), output_stop-SameQueues s)

last_block-none : (queue : List Message) → last? queue ≡ none → last_block queue ≡ queue
unfolding last_block
last_block-none queue e = rw (e, last_block) (sym (last?-eq_none queue e))

pub last_block-some :
    (queue : List Message) (m : Message)
    → last? queue ≡ some m
    → last_block queue
      ≡ (if m.settings.reparted == 0 then m ∷ [] else select (in_block m.settings.reparted) queue)
unfolding last_block
last_block-some queue m e = rw (e, last_block)

last_only-none : (queue : List Message) → last? queue ≡ none → last_only queue ≡ queue
unfolding last_only
last_only-none queue e = rw (e, last_only) (sym (last?-eq_none queue e))

pub last_only-some :
    (queue : List Message) (m : Message) → last? queue ≡ some m → last_only queue ≡ m ∷ []
unfolding last_only
last_only-some queue m e = rw (e, last_only)

except_first_of-Steps :
    (p : Priority) (m : Message) (s : State)
    → last? (speaking_get_queue p s) ≡ some m
    → Steps (set_in p (last_block (speaking_get_queue p s))) s (except_first_of p m s)
unfolding except_first_of
except_first_of-Steps p m s e = rw (last_block-some (speaking_get_queue p s) m e) (
    ground (
      arith,
      keep_block_lem m.settings.reparted (speaking_get_queue p s),
      stop_priority-Steps p (speaking_set_queue p (drop_last (speaking_get_queue p s)) s),
      output_stop-SameQueues s,
    ))

set_in-same : (p : Priority) (s : State) → set_in p (speaking_get_queue p s) s.queues ≡ s.queues
set_in-same important s = refl
set_in-same p s = refl

except_first-Steps :
    (p : Priority) (s : State)
    → Steps (set_in p (last_block (speaking_get_queue p s))) s (stop_priority_except_first p s)
unfolding stop_priority_except_first
except_first-Steps p s = elim (Option-cases (last? (speaking_get_queue p s))) [
  | inl e ↦
      rw (last_block-none (speaking_get_queue p s) e, e, stop_priority_except_first)
        (record { queues = sym (set_in-same p s); speaking = refl; highest = refl; last_p5 = refl })
  | inr (m, e) ↦ rw (e, stop_priority_except_first) (except_first_of-Steps p m s e)
]

keep_last_progress-Steps :
    (s : State) → Steps (set_in progress (last_only s.queues.p5)) s (keep_last_progress s)
unfolding keep_last_progress
keep_last_progress-Steps s = elim (Option-cases (last? s.queues.p5)) [
  | inl e ↦
      rw (last_only-none s.queues.p5 e, e, keep_last_progress)
        (record { queues = refl; speaking = refl; highest = refl; last_p5 = refl })
  | inr (m, e) ↦
      rw (last_only-some s.queues.p5 m e, e, keep_last_progress)
        (record { queues = refl; speaking = refl; highest = refl; last_p5 = refl })
]

-- `resolve_priorities` acts on the queues as the table says, and leaves the saved block of progress
-- messages alone.
pub resolve_priorities-Steps :
    (p : Priority) (s : State)
    → Steps (resolved p s.speaking (not (is_highest notification s))) s (resolve_priorities p s)
unfolding resolve_priorities
resolve_priorities-Steps important s =
    let t = if s.speaking && not (is_highest important s) then output_stop s else s in
    ground (
      arith,
      output_stop-SameQueues s,
      stop_priority-Steps notification t,
      stop_priority-Steps progress (stop_priority notification t),
    )
resolve_priorities-Steps message s =
    let t =
      if s.speaking && (not (is_highest important s) && not (is_highest message s))
      then output_stop s
      else s in
    ground (
      arith,
      output_stop-SameQueues s,
      stop_priority-Steps text t,
      stop_priority-Steps notification (stop_priority text t),
      stop_priority-Steps progress (stop_priority notification (stop_priority text t)),
    )
resolve_priorities-Steps text s =
    let t = stop_priority_except_first text s in
    ground (
      arith,
      except_first-Steps text s,
      stop_priority-Steps notification t,
      stop_priority-Steps progress (stop_priority notification t),
    )
resolve_priorities-Steps notification s =
    let t = stop_priority_except_first notification s in
    ground (arith, except_first-Steps notification s, stop_priority-Steps notification t)
resolve_priorities-Steps progress s =
    let t = stop_priority notification s in
    ground (arith, stop_priority-Steps notification s, keep_last_progress-Steps t)
