-- ===== src/Speaking/Stop/Cancel.antt =====
-- What a cancelled client leaves behind.
use mathlib.Core.Path.{subst}
use speechd.Base.{◌≢◌, ℕ, ◌≡◌, ap, false, [], arith}
use speechd.Types.{important, message, text, notification, progress}
use speechd.Server.{State, ◌>>=◌, Ensures, Ensures-bind, done}
use speechd.Server.Output.{output_stop}
use speechd.Server.Output.Frame.{output_stop-SameQueues}
use speechd.Speaking.Queue.{client_has_messages}
use speechd.Speaking.Priorities.{stop_from_uid, stop_priority}
use speechd.Speaking.Priorities.Table.{stop_priority-Steps}
use speechd.Speaking.Stop.{speaking_stop, speaking_cancel, speaking_cancel_all}
use speechd.Speaking.Stop.Returns.{HasChosen, speaking_stop-returns}
use speechd.Speaking.Stop.Others.{
  KeepsOthers, KeepsOthers-trans, client_has_messages-stop_from_uid, speaking_stop-KeepsOthers,
  stop_from_uid-KeepsOthers,
}

-- What a client's cancel leaves: none of the client's messages waits in a
-- queue, and those of all others are there as before.
pub record Cancelled (uid : ℕ) (s t : State) : Type 0 where
  pub own : client_has_messages t uid ≡ false
  pub keeps : KeepsOthers uid s t

speaking_cancel-Ensures : (uid : ℕ) (s : State) → Ensures (Cancelled uid s) (speaking_cancel uid s)
unfolding speaking_cancel
speaking_cancel-Ensures uid s =
    Ensures-bind (Cancelled uid s) (speaking_stop uid s) (λ t. done (stop_from_uid uid t))
      (speaking_stop-KeepsOthers uid s)
      λ t k. record {
        own = client_has_messages-stop_from_uid uid t;
        keeps = KeepsOthers-trans uid s t (stop_from_uid uid t) k (stop_from_uid-KeepsOthers uid t);
      }

speaking_cancel-returns :
    (uid : ℕ) (s : State) → uid ≢ 0 → HasChosen s → (t : State) × (speaking_cancel uid s ≡ done t)
unfolding speaking_cancel
speaking_cancel-returns uid s known h =
    let (t, e) = speaking_stop-returns uid s known h in
    (stop_from_uid uid t, ap (λ r. r >>= λ t. done (stop_from_uid uid t)) e)

-- A cancel of a client, in a state in which something is spoken only after a message was chosen,
-- returns; then none of the client's messages waits in a queue, the messages of all other clients
-- wait in every queue in their order, and the saved block of progress messages is as before.
pub speaking_cancel-Cancelled :
    (uid : ℕ) (s : State)
    → uid ≢ 0
    → HasChosen s
    → (t : State) × (speaking_cancel uid s ≡ done t) × Cancelled uid s t
speaking_cancel-Cancelled uid s known h =
    let (t, e) = speaking_cancel-returns uid s known h in
    (t, e, subst (Ensures (Cancelled uid s)) e (speaking_cancel-Ensures uid s))

-- After `CANCEL ALL` no message waits in any queue; the saved block of progress messages is as it
-- was.
speaking_cancel_all_lem :
    (s : State)
    → ((speaking_cancel_all s).queues ≡ record { p1 = []; p2 = []; p3 = []; p4 = []; p5 = [] })
      × ((speaking_cancel_all s).last_p5_block ≡ s.last_p5_block)
unfolding speaking_cancel_all
speaking_cancel_all_lem s =
    let s1 = stop_priority important (output_stop s) in
    let s2 = stop_priority message s1 in
    let s3 = stop_priority text s2 in
    let s4 = stop_priority notification s3 in
    ground (
      arith,
      output_stop-SameQueues s,
      stop_priority-Steps important (output_stop s),
      stop_priority-Steps message s1,
      stop_priority-Steps text s2,
      stop_priority-Steps notification s3,
      stop_priority-Steps progress s4,
    )
