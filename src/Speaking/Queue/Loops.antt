-- ===== src/Speaking/Queue/Loops.antt =====
-- What the loops of src/server/speaking.c over one queue come to.
use speechd.Base.{
  ℕ, zero, suc, ◌<◌, ◌≡◌, refl, sym, ap, ◌∙◌, ◌⊎◌, inl, inr, not, none, some, List, [], ◌∷◌, ◌++◌,
  append-nil, append_assoc, length, get_elem?, remove_at, find_index, select, arith, Bool-cases,
}
use speechd.Message.{Message}
use speechd.Server.{Effect, cancel_report}
use speechd.Speaking.Queue.{
  queue_remove_message, empty_loop, empty_queue, by_time_loop, empty_queue_by_time, has_uid,
  is_older, from_uid_loop, stop_priority_from_uid,
}

-- The notifications for a list of cancelled messages.
abbrev pub cancel_reports : List Message → List Effect
cancel_reports [] = []
cancel_reports (m ∷ ms) = cancel_report m ++ cancel_reports ms

empty_loop_lem :
    (queue : List Message) (sent : List Effect)
    → empty_loop (length queue) queue sent ≡ ([], sent ++ cancel_reports queue)
unfolding empty_loop queue_remove_message
empty_loop_lem [] sent = ap (λ es. ([], es)) (sym (append-nil sent))
empty_loop_lem (m ∷ ms) sent =
    empty_loop_lem ms (sent ++ cancel_report m)
    ∙ ap (λ es. ([], es)) (append_assoc sent (cancel_report m) (cancel_reports ms))

-- `empty_queue` leaves nothing, and notifies for every message that was in the queue, in order.
pub empty_queue_lem : (queue : List Message) → empty_queue queue ≡ ([], cancel_reports queue)
unfolding empty_queue
empty_queue_lem queue = empty_loop_lem queue []

module _ {ℓ} {A : Type ℓ} where
  get_elem?-append : (xs ys : List A) (y : A) → get_elem? (xs ++ y ∷ ys) (length xs) ≡ some y
  get_elem?-append [] ys y = refl
  get_elem?-append (x ∷ xs) ys y = get_elem?-append xs ys y

  get_elem?-append_nil : (xs : List A) → get_elem? (xs ++ []) (length xs) ≡ none
  get_elem?-append_nil [] = refl
  get_elem?-append_nil (x ∷ xs) = get_elem?-append_nil xs

  remove_at-append : (xs ys : List A) (y : A) → remove_at (length xs) (xs ++ y ∷ ys) ≡ xs ++ ys
  remove_at-append [] ys y = refl
  remove_at-append (x ∷ xs) ys y = ap (◌∷◌ x) (remove_at-append xs ys y)

  length-append_one : (xs : List A) (y : A) → length (xs ++ y ∷ []) ≡ suc (length xs)
  length-append_one [] y = refl
  length-append_one (x ∷ xs) y = ap suc (length-append_one xs y)

queue_remove_message-append :
    (done todo : List Message) (m : Message)
    → queue_remove_message (done ++ m ∷ todo) (length done) ≡ (done ++ todo, cancel_report m)
unfolding queue_remove_message
queue_remove_message-append done todo m =
    rw (get_elem?-append done todo m, queue_remove_message, remove_at-append done todo m)

by_time_loop_lem :
    (uid : ℕ) (done todo : List Message) (sent : List Effect)
    → by_time_loop uid (length todo) (length done) (done ++ todo) sent ≡ (
      done ++ select (λ m. not (is_older uid m)) todo,
      sent ++ cancel_reports (select (is_older uid) todo),
    )
unfolding by_time_loop
by_time_loop_lem uid done [] sent = ap (λ es. (done ++ [], es)) (sym (append-nil sent))
by_time_loop_lem uid done (m ∷ todo) sent = elim (Bool-cases (is_older uid m)) [
  | inl old ↦
      rw (get_elem?-append done todo m, by_time_loop, old)
        (rw (queue_remove_message-append done todo m)
          (rw (by_time_loop_lem uid done todo (sent ++ cancel_report m), append_assoc)))
  | inr new ↦
      rw (get_elem?-append done todo m, by_time_loop, new)
        (simp (length-append_one, append_assoc) at
          (by_time_loop_lem uid (done ++ m ∷ []) todo sent))
]

-- `empty_queue_by_time` removes the messages with a smaller id, keeps the others in their order,
-- and notifies for the removed ones in theirs.
pub empty_queue_by_time_lem :
    (queue : List Message) (uid : ℕ)
    → empty_queue_by_time queue uid
      ≡ (select (λ m. not (is_older uid m)) queue, cancel_reports (select (is_older uid) queue))
unfolding empty_queue_by_time
empty_queue_by_time_lem queue uid = by_time_loop_lem uid [] queue []

-- Where the search for a client's message stops, the list is split.
find_index_split :
    (uid : ℕ) (queue : List Message)
    → ((find_index (has_uid uid) queue ≡ none)
        × (select (has_uid uid) queue ≡ [])
        × (select (λ m. not (has_uid uid m)) queue ≡ queue))
      ⊎ ((i : ℕ) × (m : Message) × (find_index (has_uid uid) queue ≡ some i)
          × (get_elem? queue i ≡ some m)
          × (select (has_uid uid) queue ≡ m ∷ select (has_uid uid) (remove_at i queue))
          × (select (λ x. not (has_uid uid x)) queue
              ≡ select (λ x. not (has_uid uid x)) (remove_at i queue))
          × (length queue ≡ suc (length (remove_at i queue))))
find_index_split uid [] = inl (refl, refl, refl)
find_index_split uid (x ∷ xs) = elim (Bool-cases (has_uid uid x)) [
  | inl hit ↦ inr (0, x, rw hit, refl, rw hit, rw hit, refl)
  | inr miss ↦ elim (find_index_split uid xs) [
    | inl (e, f, g) ↦ inl (rw (miss, e), rw (miss, f), rw (miss, g))
    | inr (i, m, e, f, g, h, k) ↦
        inr (suc i, m, rw (miss, e), f, rw (miss, g), rw (miss, h), ap suc k)
  ]
]

queue_remove_message_at :
    (queue : List Message) (i : ℕ) (m : Message)
    → get_elem? queue i ≡ some m
    → queue_remove_message queue i ≡ (remove_at i queue, cancel_report m)
unfolding queue_remove_message
queue_remove_message_at queue i m e = rw (e, queue_remove_message)

from_uid_loop_lem :
    (uid fuel : ℕ) (queue : List Message) (sent : List Effect)
    → length queue < fuel
    → from_uid_loop uid fuel queue sent ≡ (
      select (λ m. not (has_uid uid m)) queue,
      sent ++ cancel_reports (select (has_uid uid) queue),
    )
unfolding from_uid_loop
from_uid_loop_lem uid zero queue sent h = absurd (omega arith)
from_uid_loop_lem uid (suc fuel) queue sent h = elim (find_index_split uid queue) [
  | inl (e, f, g) ↦ rw (e, from_uid_loop, f, g, append-nil)
  | inr (i, m, e, f, g, k, l) ↦
      rw (e, from_uid_loop)
        (rw (queue_remove_message_at queue i m f, g, k)
          (rw (
            from_uid_loop_lem uid fuel (remove_at i queue) (sent ++ cancel_report m) (omega arith),
            append_assoc,
          )))
]

-- `stop_priority_from_uid` ends with the messages of all other clients in their order, and has
-- notified for each message of this client.
pub stop_priority_from_uid_lem :
    (queue : List Message) (uid : ℕ)
    → stop_priority_from_uid queue uid
      ≡ (select (λ m. not (has_uid uid m)) queue, cancel_reports (select (has_uid uid) queue))
unfolding stop_priority_from_uid
stop_priority_from_uid_lem queue uid =
    from_uid_loop_lem uid (suc (length queue)) queue [] (omega arith)
