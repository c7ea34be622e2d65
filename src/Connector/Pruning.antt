-- ===== src/Connector/Pruning.antt =====
-- What the pruning of departed hosts asks of an array: theorems about `_prune_departed_fa_hosts`.
use pure_hypervisor_integrat.Prelude.{String, ◌≡◌, Bool, true, false, List, contains, ◌⊎◌}
use pure_hypervisor_integrat.Array.Rest.{
  Request, Requests, Array, Rest, get_host_group_hosts, delete_host_group_host, delete_host,
}
use pure_hypervisor_integrat.Array.VvolIds.{Added}

-- all that an action asks satisfies `P`, however it ends
Asks : {A : Type 0} → (Request → Type 0) → Rest A → Type 0
Asks P m = (past : Requests) → Added P past ((m past).1)

-- a request for the group's members, or, if removals are to be applied, one that takes a host that is
-- not expected out of the group or off the array
abbrev pub Spares : String → List String → Bool → Request → Type 0
Spares host_group expected apply_removals r =
    (r ≡ get_host_group_hosts host_group)
    ⊎ ((apply_removals ≡ true)
        × ((h : String) × (contains h expected ≡ false)
            × ((r ≡ delete_host_group_host host_group h) ⊎ (r ≡ delete_host h))))
