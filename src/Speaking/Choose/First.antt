-- ===== src/Speaking/Choose/First.antt =====
-- `get_message_from_queues` takes the first message that may be spoken from the most urgent queue
-- that has one.
use speechd.Base.{
  ◌<◌, ◌≡◌, refl, ◌⊎◌, inl, inr, true, false, Option, none, some, List, [], ◌∷◌, ◌++◌, All,
  Bool-cases, arith, ap, All-map,
}
use speechd.Types.{Priority, rank}
use speechd.Message.{Message}
use speechd.Server.{State}
use speechd.Speaking.Priorities.{speaking_get_queue, speaking_set_queue}
use speechd.Speaking.Choose.{
  message_nto_speak, take_first, scan, priorities, get_message_from_queues,
}

-- The client of the message is paused.
abbrev pub IsHeld : State → Message → Type 0
IsHeld s m = message_nto_speak s m ≡ true

-- How a queue is split by the message that is taken from it.
pub record Taken (s : State) (queue : List Message) (m : Message) (rest : List Message)
    : Type 0 where
  pub before : List Message
  pub after : List Message
  pub split : queue ≡ before ++ (m ∷ after)
  pub left : rest ≡ before ++ after
  pub skipped : All (IsHeld s) before
  pub free : message_nto_speak s m ≡ false

take_first_cases :
    (s : State) (queue : List Message)
    → ((take_first s queue ≡ none) × All (IsHeld s) queue)
      ⊎ ((m : Message) × (rest : List Message) × (take_first s queue ≡ some (m, rest))
          × Taken s queue m rest)
unfolding take_first
take_first_cases s [] = inl (refl, tt)
take_first_cases s (x ∷ queue) = elim (Bool-cases (message_nto_speak s x)) [
  | inl held ↦ elim (take_first_cases s queue) [
    | inl (e, h) ↦ inl (rw (held, e), (held, h))
    | inr (m, rest, e, t) ↦ inr (
      m,
      x ∷ rest,
      rw (held, e),
      record {
        before = x ∷ t.before;
        after = t.after;
        split = ap (◌∷◌ x) t.split;
        left = ap (◌∷◌ x) t.left;
        skipped = (held, t.skipped);
        free = t.free;
      },
    )
  ]
  | inr free ↦ inr (
    x,
    queue,
    rw free,
    record { before = []; after = queue; split = refl; left = refl; skipped = tt; free = free },
  )
]

abbrev Rising : List Priority → Type 0
Rising [] = Unit
Rising (p ∷ ps) = All (λ q. rank p < rank q) ps × Rising ps

-- What was chosen: the first message of its queue whose client is not paused, while every message
-- of a more urgent queue belongs to a paused client. Nothing else changes.
pub record Chosen (ps : List Priority) (s : State) (m : Message) (t : State) : Type 0 where
  pub priority : Priority
  pub rest : List Message
  pub taken : Taken s (speaking_get_queue priority s) m rest
  pub after : t ≡ record (speaking_set_queue priority rest s) { highest_priority = some priority }
  pub urgent : All (λ q. rank q < rank priority → All (IsHeld s) (speaking_get_queue q s)) ps

abbrev pub Outcome : List Priority → State → Option Message × State → Type 0
Outcome ps s r =
    ((r ≡ (none, s)) × All (λ p. All (IsHeld s) (speaking_get_queue p s)) ps)
    ⊎ ((m : Message) × (t : State) × (r ≡ (some m, t)) × Chosen ps s m t)

scan-Outcome : (ps : List Priority) (s : State) → Rising ps → Outcome ps s (scan ps s)
unfolding scan
scan-Outcome [] s r = inl (refl, tt)
scan-Outcome (p ∷ ps) s r = elim (take_first_cases s (speaking_get_queue p s)) [
  | inr (m, rest, e, t) ↦
      rw (e, scan)
        (inr (
          m,
          _,
          refl,
          record {
            priority = p;
            rest = rest;
            taken = t;
            after = refl;
            urgent =
                ((λ h. absurd (omega arith)), All-map ps (λ q above h. absurd (omega arith)) r.0);
          },
        ))
  | inl (e, held) ↦ elim (scan-Outcome ps s r.1) [
    | inl (f, h) ↦ rw (e, scan) (inl (f, (held, h)))
    | inr (m, t, f, c) ↦
        rw (e, scan)
          (inr (
            m,
            t,
            f,
            record {
              priority = c.priority;
              rest = c.rest;
              taken = c.taken;
              after = c.after;
              urgent = ((λ _. held), c.urgent);
            },
          ))
  ]
]

-- Either nothing is chosen, nothing changes, and every waiting message belongs to a paused client;
-- or a message is chosen as `Chosen` says.
pub get_message_from_queues_lem : (s : State) → Outcome priorities s (get_message_from_queues s)
unfolding get_message_from_queues
get_message_from_queues_lem s = scan-Outcome priorities s (omega arith)
