-- ===== src/Xcpng/Records.antt =====
-- What `xe` prints, as backend/phif/connectors/xcpng/connector.py reads it: fields, put together to records
-- that each begin with a uuid. The regular expression of a field is a matcher of its own, on ASCII.
use Prim.Native.Char.{Char, code}
use pure_hypervisor_integrat.Prelude.{
  ℕ, String, Bool, true, false, not, ◌&&◌, ◌||◌, ◌==◌, eqb, leb, Option, none, some, List, [], ◌∷◌,
  maybe, lookup, is_empty, text_or, if◌then◌else◌,
}
use pure_hypervisor_integrat.Prelude.Text.{strip, strip_left}
use pure_hypervisor_integrat.Prelude.Cuts.{lines}
use pure_hypervisor_integrat.Prelude.Dict.{assign, get_or}
use pure_hypervisor_integrat.Proxmox.Nodes.{ClusterNode}

-- a record: a dictionary of the fields
abbrev pub Record : Type 0
Record = List (String × String)

abbrev is_letter : Char → Bool
is_letter c = let n = code c in (leb 65 n && leb n 90) || (leb 97 n && leb n 122)

-- `[\w-]`
abbrev key_char : Char → Bool
key_char c = let n = code c in is_letter c || ((leb 48 n && leb n 57) || (eqb n 95 || eqb n 45))

-- the longest run of key characters at the start, and what follows it
unfoldable pub key_span : String → String × String
key_span String.[] = ("", "")
key_span (String.◌∷◌ c s) =
    let (key, rest) = key_span s in
    if key_char c then (String.◌∷◌ c key, rest) else ("", String.◌∷◌ c s)

abbrev begins_with_letter : String → Bool
begins_with_letter String.[] = false
begins_with_letter (String.◌∷◌ c s) = is_letter c

-- what follows the character, after white space
unfoldable pub past : ℕ → String → Option String
unfolding strip_left
past n s = first (strip_left s)
  where
    first : String → Option String
    first String.[] = none
    first (String.◌∷◌ c t) = if eqb (code c) n then some t else none

-- what follows an O or a W at once
abbrev past_mode : String → Option String
past_mode String.[] = none
past_mode (String.◌∷◌ c t) = if eqb (code c) b'O' || eqb (code c) b'W' then some t else none

-- `_XE_FIELD_RE.match(line)`: the field's key and value
unfoldable pub field_of : String → Option (String × String)
unfolding key_span past strip strip_left
field_of line =
    let (key, rest) = key_span (strip_left line) in
    if begins_with_letter key
    then maybe (past 40 rest) none (λ a. maybe (past b'R' a) none (λ b.
      maybe (past_mode b) none
        (λ c. maybe (past 41 c) none (λ d. maybe (past 58 d) none (λ e. some (key, strip e))))))
    else none

-- the fields of the lines that have one
unfoldable pub fields_of : List String → List (String × String)
unfolding field_of
fields_of [] = []
fields_of (line ∷ rest) = maybe (field_of line) (fields_of rest) (λ f. f ∷ fields_of rest)

-- the fields put together, after those of the record that has been begun
unfoldable pub grouped : Record → List (String × String) → List Record
unfolding assign
grouped cur [] = if is_empty cur then [] else cur ∷ []
grouped cur ((key, val) ∷ fields) =
    let next = cur ∷ grouped (assign key val []) fields in
    let same = grouped (assign key val cur) fields in
    if key == "uuid" && not (is_empty cur) then next else same

-- `_parse_records`
unfoldable pub parse_records : String → List Record
unfolding grouped fields_of lines
parse_records out = grouped [] (fields_of (lines out))

-- `r.get(key, "")`
abbrev pub value_of : String → Record → String
value_of key r = get_or "" (lookup key r)

-- the nodes of the records
unfoldable pub nodes_of_records : List Record → List ClusterNode
nodes_of_records [] = []
nodes_of_records (r ∷ rest) =
    let later = nodes_of_records rest in
    let name = text_or (lookup "name-label" r) (value_of "uuid" r) in
    let address = text_or (lookup "address" r) name in
    if address == ""
    then later
    else record { name = text_or (some name) address; host = address; online = true } ∷ later

-- `_parse_host_list`
unfoldable pub parse_host_list : String → List ClusterNode
unfolding nodes_of_records parse_records
parse_host_list out = nodes_of_records (parse_records out)
