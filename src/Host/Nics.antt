-- ===== src/Host/Nics.antt =====
-- backend/phif/connectors/iscsi_net.py: the interfaces that are used, and the settings for them.
-- `shlex.quote` is a parameter.
use pure_hypervisor_integrat.Prelude.{
  String, Bool, true, not, ◌&&◌, ◌||◌, ◌==◌, if◌then◌else◌, Option, List, [], ◌∷◌, ◌++◌, map,
  is_empty, leb, eqb, contains, text_or,
}
use pure_hypervisor_integrat.Prelude.Text.{fstring, join, strip}
use Prim.Native.Char.{Char, code}

-- `ARP_SYSCTL_FILE`
abbrev pub arp_sysctl_file : String
arp_sysctl_file = "/etc/sysctl.d/99-phif-iscsi-arp.conf"

-- a character of `[A-Za-z0-9._:-]`
abbrev pub is_name_char : Char → Bool
is_name_char c =
    let n = code c in
    (leb 65 n && leb n 90)
    || (leb 97 n && leb n 122)
    || (leb 48 n && leb n 58)
    || (leb 45 n && leb n 46)
    || eqb n 95

-- all characters of a text are such ones
unfoldable pub name_chars : String → Bool
name_chars String.[] = true
name_chars (String.◌∷◌ c s) = is_name_char c && name_chars s

-- `n and _NIC_RE.match(n)`, of a text without white space at its ends
abbrev pub usable : String → Bool
usable n = not (n == "") && name_chars n

-- the loop of `_clean_nics`, with the names so far
unfoldable pub clean_onto : List String → List (Option String) → List String
clean_onto out [] = out
clean_onto out (nic ∷ nics) =
    let n = strip (text_or nic "") in
    let taken = clean_onto (out ++ (n ∷ [])) nics in
    let left = clean_onto out nics in if usable n && not (contains n out) then taken else left

-- `_clean_nics`
unfoldable pub clean_nics : List (Option String) → List String
unfolding clean_onto
clean_nics nics = clean_onto [] nics

-- the two lines of an interface
unfoldable pub nic_lines : String → List String → List String
nic_lines gap [] = []
nic_lines gap (nic ∷ nics) =
    fstring ("net.ipv4.conf." ∷ nic ∷ ".arp_ignore" ∷ gap ∷ "2" ∷ [])
    ∷ fstring ("net.ipv4.conf." ∷ nic ∷ ".arp_announce" ∷ gap ∷ "2" ∷ [])
    ∷ nic_lines gap nics

-- `_arp_sysctl_lines`
unfoldable pub arp_sysctl_lines : List String → List String
unfolding nic_lines
arp_sysctl_lines clean =
    "# Managed by PHIF: multi-NIC iSCSI ARP-flux prevention (arp_ignore=2, arp_announce=2)"
    ∷ nic_lines " = " clean

-- `arp_sysctl_content`
unfoldable pub arp_sysctl_content : List (Option String) → String
arp_sysctl_content nics =
    let clean = clean_nics nics in
    if is_empty clean then "" else fstring (join "\n" (arp_sysctl_lines clean) ∷ "\n" ∷ [])

module _ (quote : String → String) where
  -- `arp_flux_cmd`
  unfoldable pub arp_flux_cmd : List (Option String) → String
  arp_flux_cmd nics =
      let clean = clean_nics nics in
      if is_empty clean
      then "true"
      else fstring (
          "printf '%s\\n' "
          ∷ join " " (map quote (arp_sysctl_lines clean))
          ∷ " > "
          ∷ arp_sysctl_file
          ∷ "; sysctl -w "
          ∷ join " " (map quote (nic_lines "=" clean))
          ∷ " 2>/dev/null || true"
          ∷ [])
