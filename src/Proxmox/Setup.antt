-- ===== src/Proxmox/Setup.antt =====
-- Setting up the integration in backend/phif/connectors/proxmox/connector.py: the plugin on the nodes, the
-- storage of the cluster, and a new volume with its disk.
use Prim.Native.Char.{Char, code}
use Prim.Native.String.{◌++◌}
use pure_hypervisor_integrat.Prelude.{
  ℕ, String, Bool, true, false, ◌&&◌, ◌||◌, ◌==◌, eqb, leb, Option, none, some, List, [], ◌∷◌,
  maybe, length, is_empty, text_or, if◌then◌else◌,
}
use pure_hypervisor_integrat.Prelude.Text.{fstring, join, repr, str}
use pure_hypervisor_integrat.Prelude.Cuts.{all_chars}
use pure_hypervisor_integrat.Array.Io.{pure, ◌>>=◌, ◌>>◌}
use pure_hypervisor_integrat.Proxmox.Names.{array_mgmt_target, is_alphanumeric}
use pure_hypervisor_integrat.Proxmox.Session.{
  Outside, Act, create_volume, connect_volume, emit, protocol, storage_id, ssh, ssh_on, ssh_script,
  ssh_script_on, array_act,
}
use pure_hypervisor_integrat.Proxmox.Nodes.{ClusterNode, list_nodes, unreachable_nodes}
use pure_hypervisor_integrat.Proxmox.Machines.{Result, ok, fail}
use pure_hypervisor_integrat.Proxmox.Volumes.{no_array, rescan_transport}

abbrev plugin_dest : String
plugin_dest = "/usr/share/perl5/PVE/Storage/Custom/PureFAPlugin.pm"

-- the plugin's file
pub record Plugin : Type 0 where
  pub source : String
  pub chars : ℕ

-- `[a-zA-Z0-9_@%+=:,./-]`
abbrev shell_safe : Char → Bool
shell_safe c =
    is_alphanumeric c
    || (leb 43 (code c) && leb (code c) 47
        || (eqb (code c) 95
            || (eqb (code c) 64 || (eqb (code c) 37 || (eqb (code c) 61 || eqb (code c) 58)))))

-- every `'` as a `'` in double quotes, outside of the single quotes
unfoldable pub escape_quotes : String → String
escape_quotes String.[] = ""
escape_quotes (String.◌∷◌ c s) =
    if eqb (code c) 39 then "'\"'\"'" ++ escape_quotes s else String.◌∷◌ c (escape_quotes s)

-- `shlex.quote(s)`
unfoldable pub shell_quote : String → String
unfolding all_chars escape_quotes
shell_quote s =
    if s == ""
    then "''"
    else if all_chars shell_safe s
    then s
    else fstring ("'" ∷ escape_quotes s ∷ "'" ∷ [])

module _ (o : Outside) where
  -- one node gets the plugin
  unfoldable pub deploy_on : Plugin → ClusterNode → Act (Unit {0})
  unfolding ◌>>=◌
  deploy_on plugin n = do
    emit (fstring ("-> deploying plugin on " ∷ n.name ∷ " (" ∷ n.host ∷ ")" ∷ []))
    installed ←
        ssh_script_on o n.host
          (fstring (
              "if perl -MJSON -MLWP::UserAgent -e1 2>/dev/null && command -v multipath >/dev/null 2>&1; then "
              ∷ "echo 'perl deps + multipath already present; skipping apt'; "
              ∷ "else apt-get update || true; "
              ∷ "apt-get install -y libjson-perl liblwp-protocol-https-perl libwww-perl multipath-tools || true; fi"
              ∷ [])
            ∷ "perl -MJSON -e1 || { echo 'ERROR: perl JSON missing and apt could not install it'; exit 1; }"
            ∷ "mkdir -p /usr/share/perl5/PVE/Storage/Custom"
            ∷ [])
          true none
    written ←
        ssh_on o n.host
          (fstring (
            "cat > " ∷ plugin_dest ∷ " <<'PUREFA_PM_EOF'\n" ∷ plugin.source ∷ "\nPUREFA_PM_EOF"
            ∷ []))
          true none
    reloaded ← ssh_on o n.host "systemctl reload pvedaemon pveproxy pvestatd" true none
    status ← ssh_on o n.host "timeout 30 pvesm status" false none
    pure tt

  -- all nodes get it
  unfoldable pub deploy_each : Plugin → List ClusterNode → Act (Unit {0})
  unfolding ◌>>=◌ deploy_on
  deploy_each plugin [] = pure tt
  deploy_each plugin (n ∷ nodes) = let rest = deploy_each plugin nodes in deploy_on plugin n >> rest

  -- the plugin is put on the nodes, which all reach the array
  unfoldable pub install : Plugin → List ClusterNode → Act Result
  unfolding ◌>>=◌ deploy_each str
  install plugin nodes = do
    deploy_each plugin nodes
    emit (
        fstring (
          "purefa storage plugin installed at "
          ∷ plugin_dest
          ∷ " on "
          ∷ str (length nodes)
          ∷ " node(s)"
          ∷ []))
    pure (ok "purefa storage plugin deployed")

  -- whether all nodes reach the array's management address is looked at first
  unfoldable pub checked_install : Plugin → List ClusterNode → Option (String × ℕ) → Act Result
  unfolding ◌>>=◌ unreachable_nodes install str
  checked_install plugin nodes none = install plugin nodes
  checked_install plugin nodes (some (host, port)) = do
    unreachable ← unreachable_nodes o nodes host port
    if is_empty unreachable
        then emit (
            fstring (
              "Array management "
              ∷ host
              ∷ ":"
              ∷ str port
              ∷ " reachable from all "
              ∷ str (length nodes)
              ∷ " node(s)"
              ∷ []))
          >> install plugin nodes
        else pure (
            fail (
              fstring (
                "FlashArray management endpoint "
                ∷ host
                ∷ ":"
                ∷ str port
                ∷ " is not reachable from: "
                ∷ join ", " unreachable
                ∷ ". The purefa plugin runs on each node and needs the array management IP reachable "
                ∷ "for provisioning, snapshots, clones and status. Fix routing/firewall "
                ∷ "(or the configured endpoint) and re-run."
                ∷ [])))

  -- `deploy_integration`, with the path of the plugin's file, and the file if it exists
  unfoldable pub deploy_integration :
      String → Option Plugin → Option (List ClusterNode) → Act Result
  unfolding ◌>>=◌ list_nodes checked_install array_mgmt_target str
  deploy_integration path file nodes = do
    emit (fstring ("Deploying purefa storage plugin (PureFAPlugin.pm -> " ∷ plugin_dest ∷ ")" ∷ []))
    maybe file (pure (fail (fstring ("Plugin file missing: " ∷ path ∷ [])))) (λ plugin. do
      emit (
          fstring (
            "Plugin PureFAPlugin.pm ("
            ∷ str plugin.chars
            ∷ " bytes) declares storage type 'purefa'"
            ∷ []))
      if o.dry_run
          then pure (ok "[dry-run] plugin deploy planned")
          else maybe nodes (list_nodes o) pure >>= λ members.
              checked_install plugin members
                (maybe o.array none (λ a. array_mgmt_target (text_or a.endpoint ""))))

  -- `configure`, with the token that the context resolves
  unfoldable pub configure : String → String → String → String → String → Act Result
  unfolding ◌>>=◌ storage_id protocol shell_quote ssh
  configure override pure_endpoint token host_group content =
      let storage = storage_id o override in
      let proto = protocol o in
      let group = text_or (some host_group) (maybe o.target.host_group "" (λ g. g)) in
      let endpoint = text_or (some pure_endpoint) (maybe o.array "" (λ a. text_or a.endpoint "")) in
      let sid = shell_quote storage in
      let group_opt = fstring ("--host_group " ∷ shell_quote group ∷ []) in
      let content_opt = fstring ("--content " ∷ shell_quote content ∷ []) in
      do
        emit (
            fstring (
              "Defining purefa storage "
              ∷ repr storage
              ∷ " (proto="
              ∷ proto
              ∷ ", host_group="
              ∷ repr group
              ∷ ") in /etc/pve/storage.cfg"
              ∷ []))
        if o.dry_run
            then pure (ok (fstring ("[dry-run] would define storage " ∷ storage ∷ [])))
            else (do
              defined ←
                  ssh o
                    (fstring (
                      "pvesm add purefa "
                      ∷ sid
                      ∷ " "
                      ∷ join " " (
                          fstring ("--pure_endpoint " ∷ shell_quote endpoint ∷ [])
                          ∷ fstring ("--pure_api_token " ∷ shell_quote token ∷ [])
                          ∷ fstring ("--protocol " ∷ shell_quote proto ∷ [])
                          ∷ group_opt
                          ∷ content_opt
                          ∷ "--shared 1"
                          ∷ "--disable 1"
                          ∷ [])
                      ∷ " 2>/dev/null || pvesm set "
                      ∷ sid
                      ∷ " "
                      ∷ join " " (group_opt ∷ content_opt ∷ [])
                      ∷ []))
                    true none
              status ← ssh o "timeout 30 pvesm status" false none
              emit (
                  fstring (
                    "Storage " ∷ storage ∷ " (type purefa) defined (disabled until 'enable')" ∷ []))
              pure (ok (fstring ("Configured purefa storage " ∷ storage ∷ " (disabled)" ∷ []))))

  -- `enable_storage`
  unfoldable pub enable_storage : String → Act Result
  unfolding ◌>>=◌ storage_id shell_quote ssh
  enable_storage override =
      let storage = storage_id o override in
      do
        emit (fstring ("Enabling purefa storage " ∷ storage ∷ []))
        if o.dry_run
            then pure (ok (fstring ("[dry-run] would enable storage " ∷ storage ∷ [])))
            else (do
              enabled ←
                  ssh o (fstring ("pvesm set " ∷ shell_quote storage ∷ " --disable 0" ∷ [])) true
                    none
              status ← ssh o "timeout 30 pvesm status" false none
              pure (ok (fstring ("Enabled purefa storage " ∷ storage ∷ []))))

  -- the new volume's disk, if a VM is given
  unfoldable pub attach_disk : String → String → String → String → Act (Unit {0})
  unfolding ◌>>=◌ ssh_script
  attach_disk vmid disk storage name = if vmid == "" then pure tt else do
    out ←
        ssh_script o
          (fstring ("qm set " ∷ vmid ∷ " -" ∷ disk ∷ " " ∷ storage ∷ ":" ∷ name ∷ []) ∷ []) false
          none
    emit (fstring ("Attached " ∷ name ∷ " to VM " ∷ vmid ∷ " as " ∷ disk ∷ " (raw block)" ∷ []))

  -- `provision`
  unfoldable pub provision : String → String → String → String → String → String → Act Result
  unfolding ◌>>=◌ storage_id rescan_transport attach_disk ssh
  provision name size host_group vmid disk override =
      let group = text_or (some host_group) (maybe o.target.host_group "" (λ g. g)) in
      maybe o.array no_array (λ a. do
        emit (
            fstring
              ("Creating FlashArray volume " ∷ name ∷ " (" ∷ size ∷ ") [one LUN per disk]" ∷ []))
        if o.dry_run then pure (ok (fstring ("[dry-run] would provision " ∷ name ∷ []))) else (do
          array_act a (create_volume name size)
          if group == ""
              then pure tt
              else array_act a (connect_volume group name)
                >> emit (fstring ("Connected " ∷ name ∷ " to host group " ∷ group ∷ []))
          rescan_transport o
          maps ← ssh o "multipath -r || true" false none
          attach_disk vmid disk (storage_id o override) name
          emit (fstring ("Provisioned " ∷ name ∷ []))
          pure (ok (fstring ("Provisioned " ∷ name ∷ [])))))
