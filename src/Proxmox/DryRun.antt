-- ===== src/Proxmox/DryRun.antt =====
-- The actions of backend/phif/connectors/proxmox/connector.py that a user starts, in a dry run.
use pure_hypervisor_integrat.Prelude.{
  String, ◌≡◌, Bool, true, false, Option, List, if◌then◌else◌, arith,
}
use pure_hypervisor_integrat.Array.Io.{pure, ◌>>◌}
use pure_hypervisor_integrat.Proxmox.Session.{Outside, Act, Event, ran, slept, said, asked, emit}
use pure_hypervisor_integrat.Proxmox.Nodes.{ClusterNode}
use pure_hypervisor_integrat.Proxmox.Machines.{Result}
use pure_hypervisor_integrat.Proxmox.Volumes.{snapshot, clone, resize, teardown}
use pure_hypervisor_integrat.Proxmox.Setup.{
  Plugin, deploy_integration, configure, enable_storage, provision,
}
use pure_hypervisor_integrat.Proxmox.Doing.{Does, Does-pure, Does-then, Does-emit, Does-maybe}

-- the actions that change a node or the array, with their arguments
pub data Action : Type 0 where
  deploying : String → Option Plugin → Option (List ClusterNode) → Action
  configuring : String → String → String → String → String → Action
  enabling : String → Action
  provisioning : String → String → String → String → String → String → Action
  snapshotting : String → String → Action
  cloning : String → String → String → Action
  resizing : String → String → String → String → Action
  removing : String → Action

-- `dispatch` of these actions
unfoldable pub act : Outside → Action → Act Result
unfolding deploy_integration configure enable_storage provision snapshot clone resize teardown
act o (deploying path file nodes) = deploy_integration o path file nodes
act o (configuring storage endpoint token group content) =
    configure o storage endpoint token group content
act o (enabling storage) = enable_storage o storage
act o (provisioning name size group vmid disk storage) =
    provision o name size group vmid disk storage
act o (snapshotting volume suffix) = snapshot o volume suffix
act o (cloning source dest group) = clone o source dest group
act o (resizing volume size vmid disk) = resize o volume size vmid disk
act o (removing storage) = teardown o storage

-- a line for the user
abbrev pub Line : Event → Type 0
Line (said t) = Unit
Line (ran c) = ⊥
Line (slept n) = ⊥
Line (asked call) = ⊥

-- of two branches the one for a dry run is taken
Does-dry :
    {A : Type 0} (b : Bool) (m n : Act A) → b ≡ true → Does Line m → Does Line (if b then m else n)
Does-dry true m n h does = does
Does-dry false m n h does = absurd (ground (arith, h))

lines-of : {B : Type 0} (text : String) (k : Act B) → Does Line k → Does Line (emit text >> k)
lines-of text k later = Does-then Line (emit text) k (Does-emit Line text tt) later

module _ (o : Outside) (dry : o.dry_run ≡ true) where
  -- a line, and the end of a dry run
  lines_end :
      (text : String) (r : Result) (n : Act Result)
      → Does Line (emit text >> (if o.dry_run then pure r else n))
  lines_end text r n = lines-of text _ (Does-dry o.dry_run (pure r) n dry (Does-pure Line r))

  -- In a dry run none of these actions runs a command on a node, asks the array for anything or waits:
  -- it only tells the user what it would do.
  pub act-Line : (action : Action) → Does Line (act o action)
  unfolding act
  act-Line (deploying path file nodes) =
      lines-of _ _ (Does-maybe Line file _ _ (Does-pure Line _) (λ plugin. lines_end _ _ _))
  act-Line (configuring storage endpoint token group content) = lines_end _ _ _
  act-Line (enabling storage) = lines_end _ _ _
  act-Line (provisioning name size group vmid disk storage) =
      Does-maybe Line o.array _ _ (Does-pure Line _) (λ a. lines_end _ _ _)
  act-Line (snapshotting volume suffix) =
      Does-maybe Line o.array _ _ (Does-pure Line _) (λ a. lines_end _ _ _)
  act-Line (cloning source dest group) =
      Does-maybe Line o.array _ _ (Does-pure Line _) (λ a. lines_end _ _ _)
  act-Line (resizing volume size vmid disk) =
      Does-maybe Line o.array _ _ (Does-pure Line _) (λ a. lines_end _ _ _)
  act-Line (removing storage) = lines_end _ _ _
