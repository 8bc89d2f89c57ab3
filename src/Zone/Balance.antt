-- ===== src/Zone/Balance.antt =====
-- Beginnings and ends of zones in what a server gets.
use angry.Common.{◌+◌, ◌≡◌, ◌≤◌, List, All}
use angry.Lock.Items.{count}
use angry.Memory.{Build}
use angry.Dequeue.Kinds.{IsThread}
use angry.Zone.Items.{begins, ends, is_kind}
use angry.Zone.Puts.{Puts}
use angry.Zone.Steps.{State, Steps, stream, live, counted}

module _ (b : Build) where
  pub record IsBalanced (s : State) : Type 0 where
    pub counted :
        count (is_kind begins) (stream s) + s.at_clear
        ≡ count (is_kind ends) (stream s) + live b s.producer.connection_id s.zones + s.at_count
    pub known : All (λ z. z.connection_id ≤ s.producer.connection_id) s.zones
    pub valid : All IsThread (stream s)
