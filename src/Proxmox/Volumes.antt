-- ===== src/Proxmox/Volumes.antt =====
-- Volumes and the integration's health and removal in backend/phif/connectors/proxmox/connector.py:
-- snapshot, clone, resize, health_check, teardown.
use pure_hypervisor_integrat.Prelude.{
  String, false, ◌&&◌, ◌==◌, none, some, List, [], ◌∷◌, maybe, length, given, text_or,
  if◌then◌else◌,
}
use pure_hypervisor_integrat.Prelude.Text.{fstring, repr, str}
use pure_hypervisor_integrat.Array.Io.{pure, ◌>>=◌, ◌>>◌}
use pure_hypervisor_integrat.Proxmox.Session.{
  Outside, Act, create_snapshot, clone_volume, connect_volume, extend_volume, emit, protocol,
  storage_id, ssh, ssh_on, array_act,
}
use pure_hypervisor_integrat.Proxmox.Nodes.{ClusterNode, list_nodes}
use pure_hypervisor_integrat.Proxmox.Machines.{Result, ok, fail}

abbrev pub no_array : Act Result
no_array = pure (fail "No FlashArray associated with this hypervisor")

-- the state of the storage and of the paths on one node
pub record NodeHealth : Type 0 where
  pub node : String
  pub host : String
  pub pvesm_status : String
  pub paths : String

module _ (o : Outside) where
  -- `snapshot`
  unfoldable pub snapshot : String → String → Act Result
  unfolding ◌>>=◌
  snapshot volume suffix = maybe o.array no_array (λ a. do
    emit (fstring ("Creating FlashArray snapshot of volume " ∷ volume ∷ []))
    if o.dry_run
        then pure (ok (fstring ("[dry-run] would snapshot " ∷ volume ∷ [])))
        else array_act a (create_snapshot volume (if suffix == "" then none else some suffix))
          >> pure (ok (fstring ("Snapshot of " ∷ volume ∷ " created" ∷ []))))

  -- `clone`
  unfoldable pub clone : String → String → String → Act Result
  unfolding ◌>>=◌
  clone source dest host_group =
      let group = text_or (some host_group) (maybe o.target.host_group "" (λ g. g)) in
      maybe o.array no_array (λ a. do
        emit (fstring ("FlashArray volume copy " ∷ source ∷ " -> " ∷ dest ∷ []))
        if o.dry_run
            then pure (ok (fstring ("[dry-run] would clone " ∷ source ∷ " -> " ∷ dest ∷ [])))
            else array_act a (clone_volume source dest)
              >> (if group == ""
                  then pure tt
                  else array_act a (connect_volume group dest)
                    >> emit (fstring ("Connected clone " ∷ dest ∷ " to host group " ∷ group ∷ [])))
              >> pure (ok (fstring ("Cloned " ∷ source ∷ " -> " ∷ dest ∷ []))))

  -- the rescan of the transport, without a check
  unfoldable pub rescan_transport : Act (Unit {0})
  unfolding ◌>>=◌ protocol ssh
  rescan_transport =
      if protocol o == "nvme-tcp"
      then sent "nvme connect-all"
      else if protocol o == "iscsi"
      then sent "iscsiadm -m session --rescan"
      else if protocol o == "fc"
      then sent "for h in /sys/class/scsi_host/host*/scan; do echo '- - -' > $h; done"
      else pure tt
    where
      sent : String → Act (Unit {0})
      sent command = ssh o command false none >>= λ out. pure tt

  -- `resize`
  unfoldable pub resize : String → String → String → String → Act Result
  unfolding ◌>>=◌ rescan_transport ssh
  resize volume size vmid disk = maybe o.array no_array (λ a. do
    emit (fstring ("Extending FlashArray volume " ∷ volume ∷ " to " ∷ size ∷ []))
    if o.dry_run
        then pure (ok (fstring ("[dry-run] would resize " ∷ volume ∷ " to " ∷ size ∷ [])))
        else (do
          array_act a (extend_volume volume size)
          rescan_transport
          maps ← ssh o "multipath -r || true" false none
          grown ←
              if given (some vmid) && given (some disk)
              then ssh o (fstring ("qm resize " ∷ vmid ∷ " " ∷ disk ∷ " " ∷ size ∷ [])) false none
              else pure ""
          emit (fstring ("Resized " ∷ volume ∷ " to " ∷ size ∷ []))
          pure (ok (fstring ("Resized " ∷ volume ∷ " to " ∷ size ∷ [])))))

  -- the loop of `health_check`
  unfoldable pub health_each : List ClusterNode → Act (List NodeHealth)
  unfolding ◌>>=◌ protocol
  health_each [] = pure []
  health_each (n ∷ nodes) =
      let rest = health_each nodes in
      do
        emit (fstring ("-> health on " ∷ n.name ∷ " (" ∷ n.host ∷ ")" ∷ []))
        status ← ssh_on o n.host "timeout 30 pvesm status" false none
        paths ←
            ssh_on o n.host
              (if protocol o == "nvme-tcp" then "nvme list-subsys" else "multipath -ll") false none
        more ← rest
        pure (record { node = n.name; host = n.host; pvesm_status = status; paths = paths } ∷ more)

  -- `health_check`, but for the array's own info
  unfoldable pub health_check : Act (List NodeHealth)
  unfolding ◌>>=◌ list_nodes health_each
  health_check = do
    nodes ← list_nodes o
    emit (
        fstring
          ("Collecting Proxmox + path health from " ∷ str (length nodes) ∷ " node(s) ..." ∷ []))
    health_each nodes

  -- the loop of `teardown`
  unfoldable pub remove_plugin : List ClusterNode → Act (Unit {0})
  unfolding ◌>>=◌
  remove_plugin [] = pure tt
  remove_plugin (n ∷ nodes) =
      let rest = remove_plugin nodes in
      do
        emit (fstring ("-> removing plugin on " ∷ n.name ∷ " (" ∷ n.host ∷ ")" ∷ []))
        removed ←
            ssh_on o n.host "rm -f /usr/share/perl5/PVE/Storage/Custom/PureFAPlugin.pm" false none
        reloaded ← ssh_on o n.host "systemctl reload pvedaemon pveproxy pvestatd" false none
        rest

  -- `teardown`
  unfoldable pub teardown : String → Act Result
  unfolding ◌>>=◌ storage_id ssh list_nodes remove_plugin str
  teardown override =
      let storage = storage_id o override in
      do
        emit (fstring ("Removing purefa storage " ∷ repr storage ∷ " and plugin ..." ∷ []))
        if o.dry_run then pure (ok "[dry-run] teardown planned") else (do
          removed ← ssh o (fstring ("pvesm remove " ∷ storage ∷ [])) false none
          nodes ← list_nodes o
          remove_plugin nodes
          emit (
              fstring
                ("purefa storage and plugin removed from " ∷ str (length nodes) ∷ " node(s)" ∷ []))
          pure (ok "Integration removed"))
