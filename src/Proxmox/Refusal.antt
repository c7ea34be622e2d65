-- ===== src/Proxmox/Refusal.antt =====
-- A creation that `create_vm` of backend/phif/connectors/proxmox/connector.py refuses: what it has done.
use pure_hypervisor_integrat.Prelude.{
  ℕ, suc, String, ◌≡◌, refl, true, false, ◌==◌, Option, none, some, List, [], ◌∷◌, Any, ◌⊎◌, inl,
  inr, contains, lookup, given, text_or, is_empty, maybe, Bool-cases, leb, length, ◌%◌, arith,
}
use pure_hypervisor_integrat.Migrate.Spec.{NicSpec, VmSpec}
use pure_hypervisor_integrat.Array.Io.{Answer, done, failed, pure, ◌>>=◌, by_end}
use pure_hypervisor_integrat.Proxmox.Session.{
  Outside, Session, Act, Event, ran, slept, said, asked, Parsed, parsed, refused, raised,
  is_mock_or_dry,
}
use pure_hypervisor_integrat.Proxmox.Doing.{
  Does, Ends, Does-pure, Does-raised, Does-bind, Does-then, Does-emit, Does-if, Does-maybe,
  Does-rescue, Does-look, Does-modify, Does-locked_retry, Does-the_host, Does-ssh,
}
use pure_hypervisor_integrat.Proxmox.Nodes.{
  ClusterNode, members_read, list_nodes, probe, drivable, found_hosts, reachable_rr_hosts,
  pick_rr_node, nth, nodes_of, dict_at, dict_or_empty,
}
use pure_hypervisor_integrat.Proxmox.Machines.{
  Result, Loop, elements, no_loop, no_get, loop_over, Vm, vms_of, vms_read, list_vms,
}
use pure_hypervisor_integrat.Proxmox.Create.{net_args, place, create_vm, by_nets, names_of, vm_name}
use pure_hypervisor_integrat.Proxmox.Names.{pve_vm_name}

-- a question to the cluster, a line for the user or a pause
abbrev pub Asks : Event → Type 0
Asks (ran c) =
    (c.lines ≡ "cat /etc/pve/.members" ∷ [])
    ⊎ (c.lines ≡ "true" ∷ [])
    ⊎ (c.lines ≡ "pvesh get /cluster/resources --type vm --output-format json" ∷ [])
Asks (slept n) = Unit
Asks (said t) = Unit
Asks (asked call) = ⊥

module _ (o : Outside) where
  members-Asks : (conn_host : String) (p : Parsed) → Does Asks (members_read o conn_host p)
  unfolding members_read
  members-Asks conn_host (refused exc) = Does-then Asks _ _ (Does-emit Asks _ tt) (Does-pure Asks _)
  members-Asks conn_host (parsed v) =
      Does-maybe Asks (dict_or_empty v) _ _ (Does-raised Asks (List ClusterNode) _) (λ d.
        Does-maybe Asks (dict_at "nodelist" d) _ _ (Does-raised Asks (List ClusterNode) _)
          (λ members.
            Does-maybe Asks (nodes_of o members) _ _ (Does-raised Asks (List ClusterNode) _)
              (λ nodes.
                Does-if Asks (is_empty nodes) _ _ (Does-pure Asks _)
                  (Does-then Asks _ _ (Does-emit Asks _ tt) (Does-pure Asks _)))))

  list_nodes-Asks : Does Asks (list_nodes o)
  unfolding list_nodes
  list_nodes-Asks = Does-bind Asks _ _ (Does-the_host Asks o (λ n. tt)) (λ conn_host.
      Does-if Asks (is_mock_or_dry o) _ _
        (Does-then Asks _ _ (Does-emit Asks _ tt) (Does-pure Asks _))
        (Does-bind Asks _ _ (Does-ssh Asks o (λ n. tt) _ false none (λ host. inl refl))
          (λ raw. members-Asks conn_host (o.loads raw))))

  probe-Asks : (n : ClusterNode) → Does Asks (probe o n)
  unfolding probe
  probe-Asks n =
      Does-rescue Asks _ _ _ (Does-locked_retry Asks o (λ n. tt) _ (inr (inl refl)))
        (λ out. Does-pure Asks _)
        (λ exc. Does-then Asks _ _ (Does-emit Asks _ tt) (Does-pure Asks _))

  drivable-Asks :
      (conn_host : String) (nodes : List ClusterNode) → Does Asks (drivable o conn_host nodes)
  unfolding drivable
  drivable-Asks conn_host [] = Does-pure Asks _
  drivable-Asks conn_host (n ∷ nodes) =
      Does-bind Asks _ _ (Does-if Asks (n.host == conn_host) _ _ (Does-pure Asks _) (probe-Asks n))
        (λ fine. Does-bind Asks _ _ (drivable-Asks conn_host nodes) (λ hosts. Does-pure Asks _))

  found-Asks :
      (conn_host : String) (nodes : List ClusterNode) → Does Asks (found_hosts o conn_host nodes)
  unfolding found_hosts
  found-Asks conn_host nodes =
      Does-bind Asks _ _ (drivable-Asks conn_host nodes)
        (λ hosts. Does-then Asks _ _ (Does-modify Asks _ (λ s. refl)) (Does-pure Asks _))

  reachable-Asks : (conn_host : String) → Does Asks (reachable_rr_hosts o conn_host)
  unfolding reachable_rr_hosts
  reachable-Asks conn_host = Does-bind Asks _ _ (Does-look Asks (Option (List String)) _) (λ known.
      Does-maybe Asks known _ _
        (Does-rescue Asks _ _ _ list_nodes-Asks (λ nodes. found-Asks conn_host _)
          (λ exc. found-Asks conn_host []))
        (λ hosts. Does-pure Asks _))

  pick-Asks : Does Asks (pick_rr_node o)
  unfolding pick_rr_node
  pick-Asks = Does-if Asks (is_mock_or_dry o) _ _ (Does-pure Asks _) (
      Does-bind Asks _ _ (Does-the_host Asks o (λ n. tt)) (λ conn_host.
        Does-bind Asks _ _ (reachable-Asks conn_host) (λ hosts.
          Does-bind Asks _ _ (Does-look Asks ℕ (λ s. s.cursor)) (λ idx.
            Does-if Asks (leb (length hosts) 1) _ _ (Does-pure Asks none) (
              Does-then Asks _ _
                (Does-modify Asks (λ s. record s { cursor = suc s.cursor }) (λ s. refl))
                (Does-pure Asks (some (nth hosts (idx % length hosts)))))))))

  place-Asks : Does Asks (place o)
  unfolding place
  place-Asks = Does-bind Asks _ _ pick-Asks (λ rr_host.
      Does-if Asks (given rr_host) _ _
        (Does-then Asks _ _ (Does-modify Asks _ (λ s. refl)) (Does-emit Asks _ tt))
        (Does-pure Asks _))

  vms-Asks : (p : Parsed) → Does Asks (vms_read o p)
  unfolding vms_read
  vms-Asks (refused exc) = Does-pure Asks _
  vms-Asks (parsed v) = by_loop (loop_over v)
    where
      by_loop :
          (l : Loop)
          → Does Asks (elim l [
            | elements vs ↦ maybe (vms_of o vs) (raised "object has no attribute 'get'") pure
            | no_loop ↦ pure []
            | no_get ↦ raised "object has no attribute 'get'"
          ])
      by_loop (elements vs) =
          Does-maybe Asks (vms_of o vs) _ _ (Does-raised Asks (List Vm) _)
            (λ vms. Does-pure Asks vms)
      by_loop no_loop = Does-pure Asks _
      by_loop no_get = Does-raised Asks (List Vm) _

  list_vms-Asks : Does Asks (list_vms o)
  unfolding list_vms
  list_vms-Asks = Does-if Asks (is_mock_or_dry o) _ _ (Does-pure Asks _) (
      Does-bind Asks _ _ (Does-ssh Asks o (λ n. tt) _ false none (λ host. inr (inr refl)))
        (λ raw. vms-Asks (o.loads (text_or (some raw) "[]"))))

-- an interface of a network that no network of the destination is set for
abbrev pub Unmapped : List (String × String) → NicSpec → Type 0
Unmapped network_map nic = given (lookup nic.source_network network_map) ≡ false

net_args-Unmapped :
    (network_map : List (String × String)) (nics : List NicSpec)
    → Any (Unmapped network_map) nics
    → (network : String) × (net_args network_map nics ≡ inl network)
unfolding net_args
net_args-Unmapped network_map [] h = elim h [ ]
net_args-Unmapped network_map (nic ∷ nics) h =
    elim (Bool-cases (given (lookup nic.source_network network_map))) [
      | inr out ↦ (nic.source_network, rw (out) refl)
      | inl fine ↦
          let (network, q) = net_args-Unmapped network_map nics (later fine h) in
          (network, rw (fine, q) refl)
    ]
  where
    later :
        given (lookup nic.source_network network_map) ≡ true
        → Any (Unmapped network_map) (nic ∷ nics)
        → Any (Unmapped network_map) nics
    later fine (inl out) = absurd (ground (arith, fine, out))
    later fine (inr rest) = rest

-- an answer that is no success
abbrev pub Refused : Answer Result → Type 0
Refused (done r) = r.success ≡ false
Refused (failed e) = Unit

pub Refused-bind :
    {A : Type 0} (m : Act A) (f : A → Act Result)
    → ((a : A) (s : Session) → Refused ((f a s).0))
    → (s : Session) → Refused (((m >>= f) s).0)
Refused-bind m f later s = by_end m f s (λ r. Refused (r.0)) (λ a s' q. later a s') (λ e s' q. tt)

module _ (o : Outside) (network_map : List (String × String)) where
  -- the end of a creation whose interfaces are not all mapped
  unmapped_end :
      (spec : VmSpec) (name : String) (r : String ⊎ List String)
      → (network : String) × (r ≡ inl network)
      → Does Asks (by_nets o spec name r) × ((s : Session) → Refused ((by_nets o spec name r s).0))
  unfolding by_nets
  unmapped_end spec name (inl network) known = (Does-pure Asks _, λ s. refl)
  unmapped_end spec name (inr nets) (network, q) = absurd (ground (arith, q))

  -- If a network of one of the VM's interfaces is not mapped, then, however the nodes answer, `create_vm`
  -- does not succeed, and has done no more than to look for the nodes and the VMs of the cluster: no VM
  -- is made.
  pub create_vm-Refused :
      (spec : VmSpec) (s : Session)
      → Any (Unmapped network_map) spec.nics
      → Ends Asks s (create_vm o spec network_map s) × Refused ((create_vm o spec network_map s).0)
  unfolding create_vm Does
  create_vm-Refused spec s out = (
    Does-then Asks (place o) _ (place-Asks o)
        (Does-bind Asks (list_vms o) _ (list_vms-Asks o) (λ vms.
          Does-then Asks _ _
            (Does-if Asks (contains (pve_vm_name spec.name) (names_of vms)) _ _
              (Does-emit Asks _ tt) (Does-pure Asks tt))
            ((end vms).0)))
        s,
    Refused-bind (place o) _
        (λ u. Refused-bind (list_vms o) _ (λ vms. Refused-bind _ _ (λ v s'. (end vms).1 s'))) s,
  )
    where
      end :
          (vms : List Vm)
          → let e =
              by_nets o spec (vm_name (names_of vms) spec.name) (net_args network_map spec.nics) in
            Does Asks e × ((s : Session) → Refused ((e s).0))
      end vms =
          unmapped_end spec (vm_name (names_of vms) spec.name) (net_args network_map spec.nics)
            (net_args-Unmapped network_map spec.nics out)
