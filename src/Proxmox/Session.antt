-- ===== src/Proxmox/Session.antt =====
-- How backend/phif/connectors/proxmox/connector.py runs commands on the nodes of a cluster. What a node
-- and the array answer is a parameter, which may depend on all that has happened; what has happened, the
-- newest first, and the connector's own fields are the state. `asyncio.sleep` is an event; the locks are
-- left out, since one call at a time is looked at.
use pure_hypervisor_integrat.Prelude.{
  ℕ, zero, suc, ◌+◌, ◌*◌, String, Bool, ◌||◌, Option, none, some, List, [], ◌∷◌, maybe, text_or,
  given, if◌then◌else◌,
}
use pure_hypervisor_integrat.Prelude.Text.{lower}
use pure_hypervisor_integrat.Prelude.Json.{Value}
use pure_hypervisor_integrat.Array.Io.{
  Fault, api_error, other_fault, Answer, done, failed, Io, ◌>>=◌,
}
use pure_hypervisor_integrat.Proxmox.Names.{lock_timeout}

-- a command on a node: the arguments of `run_ssh`, or of `run_ssh_script` if it has several lines
pub record Ssh : Type 0 where
  pub host : String
  pub lines : List String
  pub check : Bool
  pub timeout : Option ℕ

-- a request to the array
pub data ArrayCall : Type 0 where
  volume_exists : String → ArrayCall
  ensure_volume_group : String → ArrayCall
  get_volume : String → ArrayCall
  create_snapshot : String → Option String → ArrayCall
  clone_volume : String → String → ArrayCall
  connect_volume : String → String → ArrayCall
  extend_volume : String → String → ArrayCall
  create_volume : String → String → ArrayCall

pub data Event : Type 0 where
  ran : Ssh → Event
  slept : ℕ → Event
  said : String → Event
  asked : ArrayCall → Event

-- the array of the context
pub record FlashArray : Type 0 where
  pub endpoint : Option String
  pub exists : List Event → String → Answer Bool
  -- the serial of the volume, if the answer is not empty
  pub volume : List Event → String → Answer (Option (Option String))
  -- a call whose answer is not used
  pub act : List Event → ArrayCall → Answer (Unit {0})

-- `ctx.target`, the settings of the connection
pub record Target : Type 0 where
  pub protocol : Option String
  pub storage_id : Option String
  pub node_host : Option String
  pub pool_master_host : Option String
  pub host : Option String
  pub sr_name : Option String
  pub host_group : Option String

-- what `json.loads` makes of a text: a value, or a ValueError with its text
pub data Parsed : Type 0 where
  parsed : Value → Parsed
  refused : String → Parsed

pub record Outside : Type 0 where
  pub target : Target
  pub dry_run : Bool
  pub mock : Bool
  pub shell : List Event → Ssh → Answer String
  pub loads : String → Parsed
  -- `str` of a value that is no text, the name of an exception's class
  pub printed : Value → String
  pub class_name : Fault → String
  -- `repr` of an output
  pub quoted : String → String
  pub array : Option FlashArray

-- the connector's own fields, and those of the module for its cluster
pub record Session : Type 0 where
  pub events : List Event
  pub host_override : Option String
  pub boot_order : String
  pub cursor : ℕ
  pub reachable : Option (List String)

abbrev pub Act : Type 0 → Type 0
Act = Io Session

abbrev pub note : Event → Session → Session
note e s = record s { events = e ∷ s.events }

-- `ctx.emit`
abbrev pub emit : String → Act (Unit {0})
emit text s = (done tt, note (said text) s)

abbrev pub sleep : ℕ → Act (Unit {0})
sleep seconds s = (done tt, note (slept seconds) s)

abbrev pub look : {A : Type 0} → (Session → A) → Act A
look f s = (done (f s), s)

abbrev pub raised : {A : Type 0} → String → Act A
raised text s = (failed (other_fault text), s)

abbrev pub modify : (Session → Session) → Act (Unit {0})
modify f s = (done tt, f s)

module _ {A B : Type 0} where
  abbrev pub caught : Answer A × Session → (A → Act B) → (Fault → Act B) → Answer B × Session
  caught (done a, s) ok handler = ok a s
  caught (failed e, s) ok handler = handler e s

  -- `try: a = m except Exception as e: handler(e) else: ok(a)`
  abbrev pub rescue : Act A → (A → Act B) → (Fault → Act B) → Act B
  rescue m ok handler s = caught (m s) ok handler

-- `str(exc)`
abbrev pub fault_text : Fault → String
fault_text (api_error t) = t
fault_text (other_fault t) = t

-- a call of the array whose answer is not used
abbrev pub array_act : FlashArray → ArrayCall → Act (Unit {0})
array_act a call s = (a.act s.events call, note (asked call) s)

-- `array.volume_exists(name, include_destroyed=True)`
abbrev pub array_exists : FlashArray → String → Act Bool
array_exists a name s = (a.exists s.events name, note (asked (volume_exists name)) s)

-- `array.get_volume(name)`
abbrev pub array_volume : FlashArray → String → Act (Option (Option String))
array_volume a name s = (a.volume s.events name, note (asked (get_volume name)) s)

module _ (o : Outside) where
  -- `_protocol`
  unfoldable pub protocol : String
  unfolding lower
  protocol = lower (text_or o.target.protocol "nvme-tcp")

  -- `_storage_id`
  unfoldable pub storage_id : String → String
  storage_id override = text_or (some override) (text_or o.target.storage_id "purefa")

  -- `_is_mock_or_dry`
  abbrev pub is_mock_or_dry : Bool
  is_mock_or_dry = o.dry_run || o.mock

  -- the host of the connection, if one is set
  abbrev pub connection_host : Option String
  connection_host =
      if given o.target.node_host
      then o.target.node_host
      else if given o.target.host
      then o.target.host
      else none

  -- `_host`
  unfoldable pub the_host : Act String
  the_host s =
      maybe (if given s.host_override then s.host_override else connection_host)
        (failed (other_fault "No Proxmox node_host configured"), s) (λ h. (done h, s))

  -- `runner.run_ssh` and `runner.run_ssh_script`
  unfoldable pub run : Ssh → Act String
  run c s = (o.shell s.events c, note (ran c) s)

  -- the rounds of `_locked_retry` that are left, the one that is numbered `i` first
  unfoldable pub rounds : ℕ → ℕ → Ssh → Act String
  unfolding run
  rounds zero i c s = run c s
  rounds (suc left) i c s =
      let again = rounds left (suc i) c (note (slept (2 * (i + 1))) (note (ran c) s)) in
      elim (o.shell s.events c) [
        | done out ↦ if lock_timeout out then again else run c s
        | failed e ↦ if lock_timeout (fault_text e) then again else run c s
      ]

  -- `_locked_retry` with its 6 attempts and its delay of 2 seconds
  unfoldable pub locked_retry : Ssh → Act String
  unfolding rounds
  locked_retry = rounds 5 0

  -- `_ssh_on`
  abbrev pub ssh_on : String → String → Bool → Option ℕ → Act String
  ssh_on host command check timeout =
      locked_retry (record { host = host; lines = command ∷ []; check = check; timeout = timeout })

  -- `_ssh_script_on`
  abbrev pub ssh_script_on : String → List String → Bool → Option ℕ → Act String
  ssh_script_on host lines check timeout =
      locked_retry (record { host = host; lines = lines; check = check; timeout = timeout })

  -- `_ssh`
  unfoldable pub ssh : String → Bool → Option ℕ → Act String
  unfolding ◌>>=◌ the_host locked_retry
  ssh command check timeout = the_host >>= λ h. ssh_on h command check timeout

  -- `_ssh_script`
  unfoldable pub ssh_script : List String → Bool → Option ℕ → Act String
  unfolding ◌>>=◌ the_host locked_retry
  ssh_script lines check timeout = the_host >>= λ h. ssh_script_on h lines check timeout
