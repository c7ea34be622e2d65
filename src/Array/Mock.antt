-- ===== src/Array/Mock.antt =====
-- `MockFlashArrayClient` of backend/phif/flasharray/client.py: the array in memory, its volumes and
-- hosts, and the calls that it records. `hashlib.sha1(name).hexdigest()[:24]` is the parameter
-- `serial_of`.
use pure_hypervisor_integrat.Prelude.{
  ◌+◌, String, Bool, true, ◌&&◌, ◌==◌, Option, none, some, List, [], ◌∷◌, ◌++◌, contains,
  if◌then◌else◌, lookup, maybe, length,
}
use pure_hypervisor_integrat.Prelude.Text.{fstring, str, strip, lower}
use pure_hypervisor_integrat.Prelude.Dict.{assign, erase, get_or}
use pure_hypervisor_integrat.Array.Hosts.{Initiators}

-- a volume's dictionary; a key that is absent is `none`
pub record Vol : Type 0 where
  pub size : Option String
  pub serial : Option String

-- a keyword argument of a recorded call
pub data Arg : Type 0 where
  text : String → Arg
  texts : List String → Arg
  flag : Bool → Arg
  absent : Arg

abbrev pub Recorded : Type 0
Recorded = String × List (String × Arg)

-- the fields of the client
pub record Mock : Type 0 where
  pub volumes : List (String × Vol)
  pub hosts : List (String × Initiators)
  pub host_groups : List (String × List String)
  pub snapshots : List (String × Option String)
  pub api_tokens : List (String × String)
  pub protection_groups : List (String × List String)
  pub vvol_ids : List (String × String)
  pub volume_groups : List String
  pub destroyed : List String
  pub calls : List Recorded

-- `MockFlashArrayClient()`
abbrev pub empty_mock : Mock
empty_mock = record {
  volumes = [];
  hosts = [];
  host_groups = [];
  snapshots = [];
  api_tokens = [];
  protection_groups = [];
  vvol_ids = [];
  volume_groups = [];
  destroyed = [];
  calls = [];
}

-- `_rec`
abbrev pub rec_call : String → List (String × Arg) → Mock → Mock
rec_call op args s = record s { calls = s.calls ++ ((op, args) ∷ []) }

-- `add` and `discard` of a set
abbrev pub add : String → List String → List String
add x xs = if contains x xs then xs else x ∷ xs

unfoldable pub discard : String → List String → List String
discard x [] = []
discard x (y ∷ ys) = let rest = discard x ys in if y == x then rest else y ∷ rest

abbrev pub no_volume : Vol
no_volume = record { size = none; serial = none }

module _ (serial_of : String → String) where
  -- `create_volume`
  unfoldable pub create_volume : String → String → Mock → Mock
  create_volume name size s =
      rec_call "create_volume" (("name", text name) ∷ ("size", text size) ∷ []) (record s {
        volumes =
            assign name (record { size = some size; serial = some (serial_of name) }) s.volumes;
      })

  -- `clone_volume`
  unfoldable pub clone_volume : String → String → Mock → Mock
  clone_volume source dest s =
      let copied = get_or no_volume (lookup source s.volumes) in
      rec_call "clone_volume" (("source", text source) ∷ ("dest", text dest) ∷ []) (record s {
        volumes = assign dest (record copied { serial = some (serial_of dest) }) s.volumes;
      })

  -- the serial of `dest` after a copy: its own if it is overwritten and has one, else the source's,
  -- else a new one
  abbrev pub copied_serial : String → Bool → Option Vol → Vol → Option String
  copied_serial dest overwrite existing copied =
      let fresh = maybe copied.serial (some (serial_of dest)) (λ s. some s) in
      let kept =
        maybe existing fresh (λ v. maybe v.serial fresh (λ s. if s == "" then fresh else some s)) in
      if overwrite then kept else fresh

  -- `copy_volume`
  unfoldable pub copy_volume : String → String → Bool → Mock → Mock
  copy_volume source dest overwrite s =
      let existing = lookup dest s.volumes in
      let copied = get_or no_volume (lookup source s.volumes) in
      rec_call "copy_volume"
        (("source", text source) ∷ ("dest", text dest) ∷ ("overwrite", flag overwrite) ∷ [])
        (record s {
          volumes =
              assign dest (record copied { serial = copied_serial dest overwrite existing copied })
                s.volumes;
        })

  -- `import_replicated_volume`
  unfoldable pub import_replicated_volume : String → String → Mock → Mock
  import_replicated_volume source_array dest s =
      rec_call "import_replicated_volume"
        (("source_array", text source_array) ∷ ("dest", text dest) ∷ [])
        (record s {
          volumes =
              assign dest (record { size = some "0"; serial = some (serial_of dest) }) s.volumes;
        })

-- `extend_volume`
unfoldable pub extend_volume : String → String → Mock → Mock
extend_volume name size s =
    rec_call "extend_volume" (("name", text name) ∷ ("size", text size) ∷ []) (record s {
      volumes =
          assign name (record (get_or no_volume (lookup name s.volumes)) { size = some size })
            s.volumes;
    })

-- `delete_volume`
unfoldable pub delete_volume : String → Bool → Mock → Mock
unfolding discard
delete_volume name eradicate s =
    rec_call "delete_volume" (("name", text name) ∷ ("eradicate", flag eradicate) ∷ []) (record s {
      volumes = erase name s.volumes;
      destroyed = if eradicate then discard name s.destroyed else add name s.destroyed;
    })

-- `rename_volume`
unfoldable pub rename_volume : String → String → Mock → Mock
rename_volume old new s = rec_call "rename_volume" (("old", text old) ∷ ("new", text new) ∷ []) (
    maybe (lookup old s.volumes) s (λ v. record s { volumes = assign new v (erase old s.volumes) }))

-- `get_volume`: the serial and the size of a volume, if it is there
unfoldable pub get_volume : String → Mock → Option Vol × Mock
get_volume name s = (lookup name s.volumes, rec_call "get_volume" (("name", text name) ∷ []) s)

-- `volume_exists`
unfoldable pub volume_exists : String → Bool → Mock → Bool
volume_exists name include_destroyed s =
    maybe (lookup name s.volumes) (include_destroyed && contains name s.destroyed) (λ v. true)

-- `find_volume_name_by_serial`
unfoldable pub volume_of_serial : String → List (String × Vol) → Option String
volume_of_serial want [] = none
volume_of_serial want ((name, v) ∷ vols) =
    let later = volume_of_serial want vols in
    if lower (get_or "" v.serial) == want then some name else later

unfoldable pub find_volume_name_by_serial : String → Mock → Option String × Mock
unfolding volume_of_serial
find_volume_name_by_serial serial s = (
  volume_of_serial (lower (strip serial)) s.volumes,
  rec_call "find_volume_name_by_serial" (("serial", text serial) ∷ []) s,
)

-- `create_snapshot`
unfoldable pub create_snapshot : String → Option String → Mock → Mock
create_snapshot volume suffix s =
    rec_call "create_snapshot" (("volume", text volume) ∷ ("suffix", maybe suffix absent text) ∷ [])
      (record s { snapshots = s.snapshots ++ ((volume, suffix) ∷ []) })

-- `ensure_volume_group`
unfoldable pub ensure_volume_group : String → Mock → Mock
ensure_volume_group name s =
    rec_call "ensure_volume_group" (("name", text name) ∷ [])
      (record s { volume_groups = add name s.volume_groups })

-- `create_protection_group`
unfoldable pub create_protection_group : String → List String → Mock → Mock
create_protection_group name volumes s =
    rec_call "create_protection_group" (("name", text name) ∷ ("volumes", texts volumes) ∷ [])
      (record s { protection_groups = assign name volumes s.protection_groups })

-- `create_api_token`
unfoldable pub create_api_token : String → Mock → String × Mock
create_api_token username s =
    let token = fstring ("mock-token-" ∷ username ∷ "-" ∷ str (length s.api_tokens + 1) ∷ []) in
    (
      token,
      rec_call "create_api_token" (("username", text username) ∷ [])
          (record s { api_tokens = assign username token s.api_tokens }),
    )

-- `delete_api_token`
unfoldable pub delete_api_token : String → Mock → Mock
delete_api_token username s =
    rec_call "delete_api_token" (("username", text username) ∷ [])
      (record s { api_tokens = erase username s.api_tokens })

-- the calls that only leave a record
unfoldable pub connect_volume : String → String → Mock → Mock
connect_volume host volume =
    rec_call "connect_volume" (("host", text host) ∷ ("volume", text volume) ∷ [])

unfoldable pub disconnect_volume : String → String → Mock → Mock
disconnect_volume host volume =
    rec_call "disconnect_volume" (("host", text host) ∷ ("volume", text volume) ∷ [])

unfoldable pub connect_volume_to_group : String → String → Mock → Mock
connect_volume_to_group group volume =
    rec_call "connect_volume_to_group" (("group", text group) ∷ ("volume", text volume) ∷ [])

unfoldable pub disconnect_volume_from_group : String → String → Mock → Mock
disconnect_volume_from_group group volume =
    rec_call "disconnect_volume_from_group" (("group", text group) ∷ ("volume", text volume) ∷ [])
