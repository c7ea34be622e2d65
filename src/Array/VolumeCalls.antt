-- ===== src/Array/VolumeCalls.antt =====
-- `PureFlashArrayClient` of backend/phif/flasharray/client.py: its volumes and their connections.
use Prim.Native.Char.{Char, code}
use pure_hypervisor_integrat.Prelude.{
  ℕ, suc, zero, max, String, Bool, true, false, not, ◌||◌, ◌&&◌, ◌==◌, eqb, leb, Option, none, some,
  List, [], ◌∷◌, map, select, if◌then◌else◌, given, flag_or, maybe, text_or, length, is_empty,
}
use pure_hypervisor_integrat.Prelude.Text.{
  fstring, repr, lower, strip, includes, starts_with, sorted_set, join, str, drop,
}
use pure_hypervisor_integrat.Array.Io.{
  api_error, other_fault, Answer, done, failed, answered, Io, pure, raise, ◌>>=◌,
}
use pure_hypervisor_integrat.Array.Size.{Size, to_bytes, fa_min_volume_bytes}
use pure_hypervisor_integrat.Array.Rest.{
  Item, Array, Requests, Rest, call, call_idempotent, post_volume, post_volume_from, get_volumes,
  get_volumes_named, get_volumes_destroyed, get_volumes_filtered, get_volume_tags,
  patch_volume_size, patch_volume_name, patch_volume_qos, destroy_volume, eradicate_volume,
  post_volume_snapshot, post_volume_group, get_connections, post_connection, delete_connection,
  post_group_connection, delete_group_connection,
}
use pure_hypervisor_integrat.Array.HostCalls.{first_item}

-- the answer of `get_volume`
pub record VolumeInfo : Type 0 where
  pub name : String
  pub serial : Option String
  pub size : Option ℕ
  pub destroyed : Bool

abbrev pub volume_info : String → Item → VolumeInfo
volume_info name v = record {
  name = maybe v.name name (λ n. n);
  serial = v.serial;
  size = v.provisioned;
  destroyed = flag_or v.destroyed false;
}

-- the first live volume with the serial
unfoldable pub live_of_serial : String → List Item → Option String
live_of_serial want [] = none
live_of_serial want (v ∷ items) =
    let later = live_of_serial want items in
    if lower (text_or v.serial "") == want && not (flag_or v.destroyed false) then v.name else later

-- the last part of `s.split("::")`, from where the part that is read began
unfoldable pub last_part : String → String → String
last_part begun String.[] = begun
last_part begun (String.◌∷◌ c String.[]) = begun
last_part begun (String.◌∷◌ c (String.◌∷◌ d s)) =
    let next = last_part s s in
    let on = last_part begun (String.◌∷◌ d s) in
    if eqb (code c) 58 && eqb (code d) 58 then next else on

-- `name.split("::")[-1]`
unfoldable pub leaf_of : String → String
unfolding last_part
leaf_of s = last_part s s

-- `live`
unfoldable pub live_leaves : String → List Item → List Item
unfolding leaf_of
live_leaves leaf =
    select (λ v. not (flag_or v.destroyed false) && leaf_of (text_or v.name "") == leaf)

abbrev pub is_hex : Char → Bool
is_hex c =
    let n = code c in (leb 48 n && leb n 57) || ((leb 97 n && leb n 102) || (leb 65 n && leb n 70))

-- what follows `n` hexadecimal digits, if they are there
unfoldable pub after_hex : ℕ → String → Option String
after_hex zero s = some s
after_hex (suc n) String.[] = none
after_hex (suc n) (String.◌∷◌ c s) = let more = after_hex n s in if is_hex c then more else none

-- what follows a `-` and `n` hexadecimal digits
abbrev pub after_group : ℕ → String → Option String
after_group n String.[] = none
after_group n (String.◌∷◌ c s) = if eqb (code c) 45 then after_hex n s else none

-- `_VVOL_ID_RE.fullmatch(want)`
unfoldable pub is_vvol_id : String → Bool
unfolding after_hex
is_vvol_id s =
    starts_with s "rfc4122."
    && maybe (after_hex 8 (drop 8 s)) false (λ a. maybe (after_group 4 a) false (λ b.
      maybe (after_group 4 b) false
        (λ c. maybe (after_group 4 c) false (λ d. maybe (after_group 12 d) false (λ e. e == "")))))

abbrev pub vasa_tag_namespace : String
vasa_tag_namespace = "vasa-integration.purestorage.com"

abbrev pub vvol_id_tag : String
vvol_id_tag = "PURE_VVOL_ID"

-- `flt`
abbrev pub vvol_filter : String → String
vvol_filter want = fstring ("key='" ∷ vvol_id_tag ∷ "' and value='" ∷ want ∷ "'" ∷ [])

-- the volume's name that a tag gives, if it is a tag for the id
abbrev pub tagged : String → Item → Option String
tagged want tag =
    if text_or tag.key "" == vvol_id_tag
      && strip (text_or tag.value "") == want
      && given tag.resource
    then tag.resource
    else none

-- the first such name
unfoldable pub first_tagged : String → List Item → Option String
first_tagged want [] = none
first_tagged want (t ∷ tags) =
    let later = first_tagged want tags in maybe (tagged want t) later (λ n. some n)

-- a connection: its host and its host group
abbrev pub connection : Item → Option String × Option String
connection c = (c.host, c.host_group)

unfoldable pub ambiguous : String → List Item → String
ambiguous want live = fstring (
    "Volume name "
    ∷ repr want
    ∷ " is ambiguous on this array — it matches "
    ∷ str (length live)
    ∷ " pod-scoped volumes ("
    ∷ join ", " (sorted_set (map (λ (v : Item). text_or v.name "") live))
    ∷ "). Cannot choose safely."
    ∷ [])

-- an answer in place of an action
abbrev pub lift : {A : Type 0} → Answer A → Rest A
lift a past = (a, past)

module _ (array : Array) where
  -- a request of which only the success counts
  abbrev pub tell : Io Requests (List Item) → Rest (Unit {0})
  tell m = do _ ← m; pure tt

  abbrev pub tell_idempotent : Io Requests (Option (List Item)) → Rest (Unit {0})
  tell_idempotent m = do _ ← m; pure tt

  -- `create_volume`
  unfoldable pub create_volume : String → Size → Rest (Unit {0})
  create_volume name size = do
    n ← lift (to_bytes size)
    tell (call array (post_volume name (max n fa_min_volume_bytes)))

  -- a volume that does not exist is none; other errors are raised
  unfoldable pub absent_or : String → Answer (List Item) → Rest (Option VolumeInfo)
  absent_or name (done items) =
      pure (maybe (first_item items) none (λ v. some (volume_info name v)))
  absent_or name (failed (api_error e)) =
      if includes (lower e) "does not exist" then pure none else raise (api_error e)
  absent_or name (failed (other_fault e)) = raise (other_fault e)

  -- `get_volume`
  unfoldable pub get_volume : String → Rest (Option VolumeInfo)
  unfolding absent_or
  get_volume name past =
      let (answer, past') = call array (get_volumes_named name) past in absent_or name answer past'

  -- `find_volume_name_by_serial`
  unfoldable pub find_volume_name_by_serial : String → Rest (Option String)
  unfolding live_of_serial
  find_volume_name_by_serial serial =
      let want = lower (strip serial) in
      let look = (do items ← call array get_volumes; pure (live_of_serial want items)) in
      if want == "" then pure none else look

  -- the volume behind a tag, if it is live
  unfoldable pub live_volume : Option String → Rest (Option (String × Option String))
  unfolding get_volume
  live_volume none = pure none
  live_volume (some name) = do
    vol ← get_volume name
    pure (maybe vol none (λ v. if v.destroyed then none else some (v.name, v.serial)))

  -- `find_volume_by_vvol_id`
  unfoldable pub find_volume_by_vvol_id : String → Rest (Option (String × Option String))
  unfolding live_volume first_tagged
  find_volume_by_vvol_id vvol_id =
      let want = strip vvol_id in
      let look = (do
        tags ← call array (get_volume_tags vasa_tag_namespace (vvol_filter want))
        live_volume (first_tagged want tags)) in
      if not (want == "") && is_vvol_id want then look else pure none

  -- the only live volume, if there is just one
  unfoldable pub only_live : String → List Item → Rest (Option String)
  only_live want [] = pure none
  only_live want (v ∷ []) = pure v.name
  only_live want (v ∷ w ∷ more) = raise (api_error (ambiguous want (v ∷ w ∷ more)))

  -- the search by the last part of the name
  unfoldable pub resolve_leaf : String → Rest (Option String)
  unfolding only_live live_leaves
  resolve_leaf want =
      let look = (do
        items ← call array (get_volumes_filtered (fstring ("name='*::" ∷ want ∷ "'" ∷ [])))
        only_live want (live_leaves want items)) in
      if includes want "::" then pure none else if includes want "'" then pure none else look

  -- `resolve_volume_name`
  unfoldable pub resolve_volume_name : String → Rest (Option String)
  unfolding get_volume resolve_leaf
  resolve_volume_name name =
      let want = strip name in
      let exact = (do
        vol ← get_volume want
        maybe vol (resolve_leaf want)
            (λ v. if v.destroyed then resolve_leaf want else pure (some v.name))) in
      if want == "" then pure none else exact

  -- `list_volume_connections`
  unfoldable pub list_volume_connections : String → Rest (List (Option String × Option String))
  list_volume_connections volume =
      let want = strip volume in
      let look = (do items ← call array (get_connections want); pure (map connection items)) in
      if want == "" then pure [] else look

  -- `extend_volume`
  unfoldable pub extend_volume : String → Size → Rest (Unit {0})
  extend_volume name size = do
    n ← lift (to_bytes size)
    tell (call array (patch_volume_size name n))

  -- `delete_volume`
  unfoldable pub delete_volume : String → Bool → Rest (Unit {0})
  delete_volume name eradicate = do
    _ ← call array (destroy_volume name)
    (if eradicate then tell (call array (eradicate_volume name)) else pure tt)

  -- `create_snapshot`
  unfoldable pub create_snapshot : String → Option String → Rest (Unit {0})
  create_snapshot volume suffix = tell (call array (post_volume_snapshot volume suffix))

  -- `clone_volume`
  unfoldable pub clone_volume : String → String → Rest (Unit {0})
  clone_volume source dest = tell (call array (post_volume_from source dest none))

  -- `copy_volume`
  unfoldable pub copy_volume : String → String → Bool → Rest (Unit {0})
  copy_volume source dest overwrite =
      tell (call array (post_volume_from source dest (some overwrite)))

  -- `connect_volume`
  unfoldable pub connect_volume : String → String → Rest (Unit {0})
  connect_volume host volume = tell (call array (post_connection host volume))

  -- `disconnect_volume`
  unfoldable pub disconnect_volume : String → String → Rest (Unit {0})
  disconnect_volume host volume =
      tell_idempotent (call_idempotent array (delete_connection host volume))

  -- `connect_volume_to_group`
  unfoldable pub connect_volume_to_group : String → String → Rest (Unit {0})
  connect_volume_to_group group volume = tell (call array (post_group_connection group volume))

  -- `disconnect_volume_from_group`
  unfoldable pub disconnect_volume_from_group : String → String → Rest (Unit {0})
  disconnect_volume_from_group group volume =
      tell_idempotent (call_idempotent array (delete_group_connection group volume))

  -- `ensure_volume_group`
  unfoldable pub ensure_volume_group : String → Rest (Unit {0})
  ensure_volume_group name = tell_idempotent (call_idempotent array (post_volume_group name))

  -- `rename_volume`
  unfoldable pub rename_volume : String → String → Rest (Unit {0})
  rename_volume old new = tell (call array (patch_volume_name old new))

  -- whether a destroyed volume of the name waits for its eradication; an exception is no
  unfoldable pub destroyed_exists : String → Rest Bool
  destroyed_exists name past =
      let (answer, past') = call array (get_volumes_destroyed name) past in
      (done (answered false (λ items. not (is_empty items)) answer), past')

  -- `volume_exists`
  unfoldable pub volume_exists : String → Bool → Rest Bool
  unfolding get_volume destroyed_exists
  volume_exists name include_destroyed = do
    vol ← get_volume name
    maybe vol (if include_destroyed then destroyed_exists name else pure false) (λ v. pure true)

  -- `set_qos`
  unfoldable pub set_qos : String → Option ℕ → Option ℕ → Rest (Unit {0})
  set_qos volume iops_limit bw_limit =
      tell (call array (patch_volume_qos volume iops_limit bw_limit))
