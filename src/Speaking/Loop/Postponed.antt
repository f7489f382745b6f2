-- ===== src/Speaking/Loop/Postponed.antt =====
-- src/server/speaking.c: a postponed block of progress messages becomes part of the queue of messages.
use mathlib.Core.List.{Perm}
use mathlib.Core.List.Perm
use speechd.Base.{◌≤◌, ◌≡◌, List, [], ◌∷◌, ◌++◌, All}
use speechd.Message.{Message}
use speechd.Server.{State}
use speechd.Types.{progress}
use speechd.Base.{not, select}
use speechd.Speaking.Queue.{is_older}

-- In the order of the ids.
abbrev pub IsSorted : List Message → Type 0
IsSorted [] = Unit
IsSorted (m ∷ queue) = All (λ x. m.id ≤ x.id) queue × IsSorted queue

-- What is left when the block that ends with `m` was put into the queue of messages.
pub record IsPostponed (m : Message) (s t : State) : Type 0 where
  pub important : t.queues.p1 ≡ s.queues.p1
  pub sorted : IsSorted t.queues.p2
  pub moved : Perm (s.last_p5_block ++ s.queues.p2) t.queues.p2
  pub newer : t.queues.p3 ≡ select (λ x. not (is_older m.id x)) s.queues.p3
  pub notifications : t.queues.p4 ≡ []
  pub progress : t.queues.p5 ≡ []
  pub block : t.last_p5_block ≡ []
