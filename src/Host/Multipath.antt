-- ===== src/Host/Multipath.antt =====
-- backend/phif/connectors/multipath.py: the commands, each with its time limit, that a host gets when
-- volumes are mapped to it, in their order. A command that raises ends them.
use pure_hypervisor_integrat.Prelude.{
  ℕ, String, Bool, not, ◌==◌, if◌then◌else◌, Option, some, List, [], ◌∷◌, ◌++◌, map, select,
  contains, text_or,
}
use pure_hypervisor_integrat.Prelude.Text.{fstring, lower}
use pure_hypervisor_integrat.Migrate.Spec.{scsi_wwid}

abbrev pub nvme_protocols : List String
nvme_protocols = "nvme-tcp" ∷ "nvme-fc" ∷ "nvme-roce" ∷ []

-- `wwids_for`
unfoldable pub wwids_for : List String → List String
wwids_for serials = map (λ s. scsi_wwid (some s)) (select (λ s. not (s == "")) serials)

-- `(protocol or "iscsi").lower()`
unfoldable pub transport : Option String → String
transport protocol = lower (text_or protocol "iscsi")

abbrev pub is_nvme : String → Bool
is_nvme proto = contains proto nvme_protocols

abbrev pub flush : String → String × ℕ
flush wwid = (fstring ("multipath -f " ∷ wwid ∷ " 2>/dev/null || true" ∷ []), 30)

abbrev pub rescan : String → String × ℕ
rescan proto =
    if proto == "nvme-tcp"
    then ("nvme connect-all", 60)
    else if proto == "iscsi"
    then ("iscsiadm -m session --rescan", 60)
    else ("for h in /sys/class/scsi_host/host*/scan; do echo '- - -' > $h; done", 60)

abbrev pub await_node : String → String × ℕ
await_node wwid = (
  fstring (
      "for i in $(seq 1 20); do [ -e /dev/mapper/" ∷ wwid ∷ " ] && break; "
      ∷ "multipath -r >/dev/null 2>&1; sleep 1; done" ∷ []),
  40,
)

-- the commands for a transport
unfoldable pub commands : String → List String → List (String × ℕ)
commands proto wwids =
    if is_nvme proto
    then rescan proto ∷ []
    else map flush wwids ++ (rescan proto ∷ ("multipath -r || true", 60) ∷ map await_node wwids)

-- `refresh_block_devices`
unfoldable pub refresh_block_devices : Option String → List String → List (String × ℕ)
unfolding commands transport
refresh_block_devices protocol wwids = commands (transport protocol) wwids
