-- ===== src/ControlPlane/Scale/Converges.antt =====
-- The scaling of machines against a server that keeps them.
use kink.Base.{◌≡◌, List, ok, Result}
use kink.Api.{Cluster, KinkControlPlane, KinkMachine}
use kink.Platform.{Platform}
use kink.Client.{Client, World}
use kink.Client.Keeps.{KeepsMachines}

module _ (P : Platform) {C : Client} (cluster : Cluster) (kcp : KinkControlPlane)
    (K : KeepsMachines P C cluster) where
  -- The world that a run ends in holds these machines, and the run has not failed.
  abbrev LeavesMachines : Result (Unit {0}) × World C → List KinkMachine → Type 0
  LeavesMachines run kms = (run.0 ≡ ok tt) × (K.stored run.1.server ≡ kms)
