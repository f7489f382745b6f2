-- ===== src/Server/Output/Frame.antt =====
-- What a request to stop leaves alone.
use speechd.Base.{◌≡◌, arith}
use speechd.Server.{State}
use speechd.Server.Output.{output_stop}

pub record SameQueues (s t : State) : Type 0 where
  pub queues : t.queues ≡ s.queues
  pub speaking : t.speaking ≡ s.speaking
  pub highest : t.highest_priority ≡ s.highest_priority
  pub last_p5 : t.last_p5_block ≡ s.last_p5_block
  pub gid : t.speaking_gid ≡ s.speaking_gid

pub output_stop-SameQueues : (s : State) → SameQueues s (output_stop s)
unfolding output_stop
output_stop-SameQueues s = ground arith
