-- ===== src/Array/Owners.antt =====
-- The search for the owner of an initiator is right: theorems about `find_host_by_initiator`.
use pure_hypervisor_integrat.Prelude.{
  String, ◌≡◌, ◌⊎◌, false, ◌==◌, Option, none, some, List, All, Any,
}
use pure_hypervisor_integrat.Prelude.Text.{lower, strip}
use pure_hypervisor_integrat.Array.Hosts.{Initiators, norm_wwn}

-- one of the initiators that are asked for, blank ones left out, is one of a host's, in their forms
abbrev pub Common : (String → String) → (String → String) → List String → List String → Type 0
Common f g asked have = Any (λ a. ((strip a == "") ≡ false) × Any (λ h. f a ≡ g h) have) asked

-- a host owns one of the initiators: an iqn or an nqn, but for the case of its letters and for blanks
-- around what is asked for, or a wwn, but for the case of its letters and for colons, dashes and blanks
abbrev pub Owns : Initiators → Initiators → Type 0
Owns asked have =
    Common (λ a. lower (strip a)) lower asked.iqns have.iqns
    ⊎ Common (λ a. lower (strip a)) lower asked.nqns have.nqns
    ⊎ Common norm_wwn norm_wwn asked.wwns have.wwns

-- what an answer says of the hosts: a name is that of a host that owns one of the initiators, and
-- without an answer none owns any, but for hosts without a name
abbrev pub Answers : Initiators → List (Option String × Initiators) → Option String → Type 0
Answers asked hosts (some name) = Any (λ h. (h.0 ≡ some name) × Owns asked h.1) hosts
Answers asked hosts none =
    Any (λ h. (h.0 ≡ none) × Owns asked h.1) hosts ⊎ All (λ h. ¬ Owns asked h.1) hosts
