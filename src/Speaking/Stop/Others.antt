-- ===== src/Speaking/Stop/Others.antt =====
-- What a client that stops or cancels leaves to the others.
use speechd.Base.{
  ℕ, ◌==◌, ◌≡◌, refl, sym, ap, ◌∙◌, true, false, not, List, [], ◌∷◌, ◌++◌, select, some_of, All,
  select-append, append-nil, last?, Option-cases, ◌&&◌, arith, Bool-cases, inl, inr,
}
use speechd.Types.{Priority, important, message, text, notification, progress, Priority-discrete}
use speechd.Message.{Message}
use speechd.Server.{State, Ensures, Ensures-map}
use speechd.Server.Output.{output_stop}
use speechd.Server.Output.Frame.{output_stop-SameQueues}
use speechd.Speaking.Queue.{has_uid, client_has_messages}
use speechd.Speaking.Queue.Loops.{stop_priority_from_uid_lem, cancel_reports}
use speechd.Speaking.Priorities.{
  speaking_get_queue, speaking_set_queue, stop_from_uid, stop_from_uid_in,
}
use speechd.Speaking.Stop.{
  speaking_stop, stop_speaker, get_speaking_client_uid, stop_block, of_block, trim,
}
use speechd.Speaking.Stop.Trim.{trim-Trimmed, output_stop-get, get-set_same, get-set_other}
use speechd.Speaking.Stop.Block.{asserted_cases}

-- The messages of all other clients.
abbrev pub others : ℕ → List Message → List Message
others uid = select (λ m. not (has_uid uid m))

-- `stop_from_uid` filters each queue, and notifies for the removed messages, queue by queue from
-- the most urgent one; it changes nothing else.
pub stop_from_uid_lem :
    (uid : ℕ) (s : State)
    → stop_from_uid uid s ≡ record s {
      queues = record {
        p1 = others uid s.queues.p1;
        p2 = others uid s.queues.p2;
        p3 = others uid s.queues.p3;
        p4 = others uid s.queues.p4;
        p5 = others uid s.queues.p5;
      };
      log =
          ((((s.log ++ cancel_reports (select (has_uid uid) s.queues.p1))
                ++ cancel_reports (select (has_uid uid) s.queues.p2))
              ++ cancel_reports (select (has_uid uid) s.queues.p3))
            ++ cancel_reports (select (has_uid uid) s.queues.p4))
          ++ cancel_reports (select (has_uid uid) s.queues.p5);
    }
unfolding stop_from_uid stop_from_uid_in
stop_from_uid_lem uid s = rw (
  stop_priority_from_uid_lem s.queues.p1 uid,
  stop_priority_from_uid_lem s.queues.p2 uid,
  stop_priority_from_uid_lem s.queues.p3 uid,
  stop_priority_from_uid_lem s.queues.p4 uid,
  stop_priority_from_uid_lem s.queues.p5 uid,
)

none_left : (uid : ℕ) (queue : List Message) → some_of (has_uid uid) (others uid queue) ≡ false
none_left uid [] = refl
none_left uid (m ∷ queue) = elim (Bool-cases (has_uid uid m)) [
  | inl own ↦ rw own (none_left uid queue)
  | inr other ↦ rw (other, other) (none_left uid queue)
]

pub client_has_messages-stop_from_uid :
    (uid : ℕ) (s : State) → client_has_messages (stop_from_uid uid s) uid ≡ false
unfolding client_has_messages
client_has_messages-stop_from_uid uid s = rw (stop_from_uid_lem uid s) (
    ground (
      arith,
      none_left uid s.queues.p1,
      none_left uid s.queues.p2,
      none_left uid s.queues.p3,
      none_left uid s.queues.p4,
      none_left uid s.queues.p5,
    ))

of_block-has_uid : (uid gid : ℕ) (m : Message) → of_block gid uid m ≡ true → has_uid uid m ≡ true
unfolding has_uid
of_block-has_uid uid gid m e = ground arith

others-All_own :
    (uid gid : ℕ) (cut : List Message)
    → All (λ m. of_block gid uid m ≡ true) cut
    → others uid cut ≡ []
others-All_own uid gid [] h = refl
others-All_own uid gid (m ∷ cut) h =
    rw (of_block-has_uid uid gid m h.0) (others-All_own uid gid cut h.1)

others-trim :
    (uid gid : ℕ) (queue : List Message)
    → others uid (trim (of_block gid uid) queue) ≡ others uid queue
others-trim uid gid queue =
    let t = trim-Trimmed (of_block gid uid) queue in
    sym (
      ap (others uid) t.split
      ∙ select-append (λ m. not (has_uid uid m)) (trim (of_block gid uid) queue) t.cut
      ∙ ap (λ l. others uid (trim (of_block gid uid) queue) ++ l)
          (others-All_own uid gid t.cut t.passes)
      ∙ append-nil (others uid (trim (of_block gid uid) queue)))

-- The messages of other clients stay in every queue, in their order, and so does the saved block.
pub record KeepsOthers (uid : ℕ) (s t : State) : Type 0 where
  pub foreign :
      (p : Priority) → others uid (speaking_get_queue p t) ≡ others uid (speaking_get_queue p s)
  pub saved : t.last_p5_block ≡ s.last_p5_block

set-KeepsOthers :
    (uid : ℕ) (p : Priority) (l : List Message) (s : State)
    → others uid l ≡ others uid (speaking_get_queue p s)
    → KeepsOthers uid s (speaking_set_queue p l s)
set-KeepsOthers uid p l s h = record {
  foreign = λ q. elim (Priority-discrete q p) [
    | yes e ↦ rw e (ap (others uid) (get-set_same p l s) ∙ h)
    | no n ↦ ap (others uid) (get-set_other p q l s n)
  ];
  saved = refl;
}

stop_block-KeepsOthers :
    (uid : ℕ) (p : Priority) (s : State) → KeepsOthers uid s (stop_block uid p s)
unfolding stop_block
stop_block-KeepsOthers uid p s = elim (Option-cases (last? (speaking_get_queue p s))) [
  | inl e ↦ rw (e, stop_block) (record { foreign = λ q. refl; saved = refl })
  | inr (m, e) ↦ elim (Bool-cases (not (m.settings.reparted == 0) && m.settings.uid == uid)) [
    | inl hit ↦
        rw (e, stop_block, hit)
          (set-KeepsOthers uid p _ s (others-trim uid m.settings.reparted (speaking_get_queue p s)))
    | inr miss ↦ rw (e, stop_block, miss) (record { foreign = λ q. refl; saved = refl })
  ]
]

-- After the module was told to stop, or not.
output_stop-KeepsOthers : (uid : ℕ) (s : State) → KeepsOthers uid s (output_stop s)
output_stop-KeepsOthers uid s = record {
  foreign = λ q. ap (others uid) (output_stop-get q s);
  saved = (output_stop-SameQueues s).last_p5;
}

pub KeepsOthers-trans :
    (uid : ℕ) (s t u : State) → KeepsOthers uid s t → KeepsOthers uid t u → KeepsOthers uid s u
KeepsOthers-trans uid s t u h k = record {
  foreign = λ q. k.foreign q ∙ h.foreign q;
  saved = k.saved ∙ h.saved;
}

stop_speaker-KeepsOthers : (uid : ℕ) (s : State) → Ensures (KeepsOthers uid s) (stop_speaker uid s)
unfolding stop_speaker
stop_speaker-KeepsOthers uid s = elim (asserted_cases (output_stop s)) [
  | inl (e, _) ↦ rw e tt
  | inr (p, e, _) ↦ rw e (
      KeepsOthers-trans uid s (output_stop s) (stop_block uid p (output_stop s))
        (output_stop-KeepsOthers uid s) (stop_block-KeepsOthers uid p (output_stop s)))
]

get_speaking_client_uid-KeepsOthers :
    (uid : ℕ) (s : State) → KeepsOthers uid s (get_speaking_client_uid s).1
unfolding get_speaking_client_uid
get_speaking_client_uid-KeepsOthers uid s = elim (Bool-cases s.speaking) [
  | inl e ↦ simp e (record { foreign = λ q. refl; saved = refl })
  | inr e ↦ simp e (record { foreign = λ q. refl; saved = refl })
]

pub speaking_stop-KeepsOthers :
    (uid : ℕ) (s : State) → Ensures (KeepsOthers uid s) (speaking_stop uid s)
unfolding speaking_stop
speaking_stop-KeepsOthers uid s =
    let r = get_speaking_client_uid s in
    let k = get_speaking_client_uid-KeepsOthers uid s in
    elim (Bool-cases (r.0 == uid)) [
      | inl e ↦ rw e (
          Ensures-map (stop_speaker uid r.1) (λ t. KeepsOthers-trans uid s r.1 t k)
            (stop_speaker-KeepsOthers uid r.1))
      | inr e ↦ rw e k
    ]

others-others : (uid : ℕ) (queue : List Message) → others uid (others uid queue) ≡ others uid queue
others-others uid [] = refl
others-others uid (m ∷ queue) = elim (Bool-cases (has_uid uid m)) [
  | inl own ↦ rw own (others-others uid queue)
  | inr other ↦ rw (other, other) (ap (◌∷◌ m) (others-others uid queue))
]

stop_from_uid-get :
    (uid : ℕ) (p : Priority) (s : State)
    → speaking_get_queue p (stop_from_uid uid s) ≡ others uid (speaking_get_queue p s)
stop_from_uid-get uid important s = ap (λ t. t.queues.p1) (stop_from_uid_lem uid s)
stop_from_uid-get uid message s = ap (λ t. t.queues.p2) (stop_from_uid_lem uid s)
stop_from_uid-get uid text s = ap (λ t. t.queues.p3) (stop_from_uid_lem uid s)
stop_from_uid-get uid notification s = ap (λ t. t.queues.p4) (stop_from_uid_lem uid s)
stop_from_uid-get uid progress s = ap (λ t. t.queues.p5) (stop_from_uid_lem uid s)

pub stop_from_uid-KeepsOthers : (uid : ℕ) (s : State) → KeepsOthers uid s (stop_from_uid uid s)
stop_from_uid-KeepsOthers uid s = record {
  foreign =
      λ q. ap (others uid) (stop_from_uid-get uid q s) ∙ others-others uid (speaking_get_queue q s);
  saved = ap (λ t. t.last_p5_block) (stop_from_uid_lem uid s);
}
