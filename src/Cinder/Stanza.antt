-- ===== src/Cinder/Stanza.antt =====
-- backend/phif/connectors/openstack/pure.py: the stanza of a backend in cinder.conf, and the line of
-- the backends that are enabled. The regular expressions are matchers of their own. Lines end with a
-- line feed, and a name has none.
use Prim.Native.Char.{Char, code}
use pure_hypervisor_integrat.Prelude.{
  ℕ, String, Bool, true, false, not, ◌==◌, eqb, Option, none, some, List, [], ◌∷◌, ◌++◌, map, any,
  select, contains, lookup, maybe, given, text_or, if◌then◌else◌,
}
use pure_hypervisor_integrat.Prelude.Text.{fstring, join, strip, strip_left, drop, starts_with}

-- `DRIVER_CLASSES`
abbrev pub driver_classes : List (String × String)
driver_classes =
    ("iscsi", "cinder.volume.drivers.pure.PureISCSIDriver")
    ∷ ("fc", "cinder.volume.drivers.pure.PureFCDriver")
    ∷ ("nvme-tcp", "cinder.volume.drivers.pure.PureNVMEDriver")
    ∷ ("nvme-roce", "cinder.volume.drivers.pure.PureNVMEDriver")
    ∷ []

-- `NVME_TRANSPORTS`
abbrev pub nvme_transports : List (String × String)
nvme_transports = ("nvme-tcp", "tcp") ∷ ("nvme-roce", "roce") ∷ []

-- `driver_class_for`; `none` is its ValueError
unfoldable pub driver_class_for : String → Option String
driver_class_for protocol = lookup protocol driver_classes

-- a character before the first piece
abbrev pub onto_first : Char → List String → List String
onto_first c [] = String.◌∷◌ c String.[] ∷ []
onto_first c (piece ∷ rest) = String.◌∷◌ c piece ∷ rest

-- `s.split(sep)` for a separator of one character
unfoldable pub split_at : ℕ → String → List String
split_at sep String.[] = "" ∷ []
split_at sep (String.◌∷◌ c s) =
    let rest = split_at sep s in if eqb (code c) sep then "" ∷ rest else onto_first c rest

-- the pieces without white space at their ends, but for empty ones
unfoldable pub stripped : List String → List String
stripped pieces = select (λ s. not (s == "")) (map strip pieces)

-- the keyword arguments of `render_stanza`
pub record Backend : Type 0 where
  pub backend_name : String
  pub protocol : String
  pub san_ip : String
  pub pure_api_token : String
  pub eradicate_on_delete : Bool
  pub use_multipath_for_image_xfer : Bool
  pub replication_device : Option String
  pub pure_iscsi_cidr : Option String
  pub pure_iscsi_cidr_list : Option String
  pub nvme_options : Option String

-- `str(b).lower()`
abbrev pub bool_word : Bool → String
bool_word true = "true"
bool_word false = "false"

-- `key = value` for a value that is given
abbrev pub option_line : String → Option String → List String
option_line key value =
    if given value then fstring (key ∷ " = " ∷ text_or value "" ∷ []) ∷ [] else []

-- the lines that every stanza has
abbrev pub common_lines : Backend → String → List String
common_lines b driver =
    fstring ("[" ∷ b.backend_name ∷ "]" ∷ [])
    ∷ fstring ("volume_backend_name = " ∷ b.backend_name ∷ [])
    ∷ fstring ("volume_driver = " ∷ driver ∷ [])
    ∷ fstring ("san_ip = " ∷ b.san_ip ∷ [])
    ∷ fstring ("pure_api_token = " ∷ b.pure_api_token ∷ [])
    ∷ fstring ("use_multipath_for_image_xfer = " ∷ bool_word b.use_multipath_for_image_xfer ∷ [])
    ∷ fstring ("pure_eradicate_on_delete = " ∷ bool_word b.eradicate_on_delete ∷ [])
    ∷ []

-- the lines of the iSCSI protocol
abbrev pub iscsi_lines : Backend → List String
iscsi_lines b =
    if b.protocol == "iscsi"
    then option_line "pure_iscsi_cidr" b.pure_iscsi_cidr
      ++ option_line "pure_iscsi_cidr_list" b.pure_iscsi_cidr_list
    else []

-- the lines of the NVMe protocols
unfoldable pub nvme_lines : Backend → List String
unfolding split_at stripped
nvme_lines b = maybe (lookup b.protocol nvme_transports) [] (λ transport.
    fstring ("pure_nvme_transport = " ∷ transport ∷ [])
    ∷ stripped (split_at 10 (text_or b.nvme_options "")))

-- `render_stanza`; `none` is the ValueError of `driver_class_for`
unfoldable pub render_stanza : Backend → Option String
unfolding driver_class_for nvme_lines
render_stanza b = maybe (driver_class_for b.protocol) none (λ driver. some (
    fstring (
      join "\n" (
        common_lines b driver
        ++ (iscsi_lines b
            ++ (nvme_lines b ++ option_line "replication_device" b.replication_device)))
      ∷ "\n"
      ∷ [])))

-- `stanza_exists`: a line that is the section's header, but for white space at its ends
unfoldable pub stanza_exists : String → String → Bool
unfolding split_at
stanza_exists conf backend_name =
    any (λ line. strip line == fstring ("[" ∷ backend_name ∷ "]" ∷ [])) (split_at 10 conf)

-- the text before the first line break
unfoldable pub first_line : String → String
first_line String.[] = ""
first_line (String.◌∷◌ c s) =
    let rest = first_line s in if eqb (code c) 10 then "" else String.◌∷◌ c rest

-- the value of `enabled_backends`, if the text begins with its line; `\s*` passes over line breaks too
unfoldable pub value_here : String → Option String
unfolding first_line
value_here text =
    let s = strip_left text in
    let r = strip_left (drop 16 s) in
    if starts_with s "enabled_backends"
    then (if starts_with r "=" then some (first_line (strip_left (drop 1 r))) else none)
    else none

-- the search of the pattern; the flag says that a line begins here
unfoldable pub find_value : Bool → String → Option String
unfolding value_here
find_value begins String.[] = none
find_value begins (String.◌∷◌ c s) =
    let later = find_value (eqb (code c) 10) s in
    if begins then maybe (value_here (String.◌∷◌ c s)) later some else later

-- `build_enabled_backends`
unfoldable pub build_enabled_backends : String → String → Option String
unfolding find_value stripped split_at
build_enabled_backends conf backend_name =
    maybe (find_value true conf) (some backend_name) (λ value.
      let existing = stripped (split_at 44 value) in
      if contains backend_name existing
      then none
      else some (join "," (existing ++ (backend_name ∷ []))))
