-- ===== src/Lib.antt =====
-- PHIF, the FlashArray integration framework for hypervisors: a model of the core of its backend
-- (backend/phif) and the theorems about it.
--
-- The program. The backend connects hypervisors to FlashArrays. Its largest piece of own logic is
-- the migration of a VM from one hypervisor to another (backend/phif/migrate): the service captures
-- the VM's spec, builds a destination VM on array-side copies of its disks, starts it, and in a move
-- removes the source. It calls the connectors of the two hypervisors and, through them, their arrays.
-- Groups of migrations (run_migration_group) run members side by side; a scheduler
-- (backend/phif/jobs/scheduler.py) starts the groups that are due; a job manager records each
-- operation as a job; after a restart what was left running is marked as failed. Requests of the web
-- API (backend/phif/api/migrations.py) start all of this; the volumes and hosts of an array are reached
-- by its client (backend/phif/flasharray/client.py).
--
-- The files.
--   Prelude         lists, Boolean tests, Python's texts and dictionaries (Dict, Json), texts cut into
--                   parts (Cuts), numerals (Numerals) and the search for a free name (Search), for all
--                   the others
--   Migrate/Spec    backend/phif/migrate/spec.py: a VM's portable description and disk ids
--   Migrate/Dicts   to_dict and from_dict of the same file (RoundTrip)
--   Migrate/World   the connectors and arrays of both sides, backend/phif/connectors/base.py: a record
--                   of operations. Each answer may depend on all that was called before (the trace),
--                   so the theorems hold for every behaviour of the hypervisors. The trace has the
--                   newest event first.
--   Migrate/Act     explicit state passing with exceptions; `perform` makes a call and notes it
--   Migrate/Service the fields and options of MigrationService, and its small helpers
--   Migrate/Preflight, Destination, Disks, Power, Finish
--                   the steps of MigrationService (backend/phif/migrate/service.py) in their order:
--                   _preflight to _resolve_volumes; _ensure_unique_dest_name and _create_dest_vm;
--                   _build_destination_disks to _set_boot; _quiesce_source, _power_on_dest and
--                   _teardown_dest; the replication of arrays, _finalize_move and _finalize_copy
--   Migrate/Steps   RollbackStack of backend/phif/migrate/steps.py
--   Migrate/Run     MigrationService.run
--   Migrate/Ledger  the invariant of a run: every call on the trace was permitted when it was made
--   Migrate/Safety, Migrate/Outcome
--                   the theorems about a whole run, from that invariant
--   Migrate/Yields  what an action achieves when it returns
--   Group           backend/phif/migrate/service.py, run_migration_group: its members as coroutines,
--                   interleaved in any order by a step relation (Runner, Reach); how many run at once
--                   and that the run ends (Theorems), what the members come to (Final), what is never
--                   touched (Fixed), the stop flag and the group's status (Stop). Every round of the
--                   polling of a migration is a step, and each write of a member's entry may fail.
--                   As that write stands under the group's lock, its read, change and commit are one
--                   step.
--   Jobs            backend/phif/jobs/manager.py, JobManager._run, _finalize and _strip_secrets
--                   (Manager, Log), and backend/phif/jobs/reconcile.py (Reconcile, Restart)
--   Host            backend/phif/connectors/iscsi_net.py (Nics) and multipath.py (Multipath): what is
--                   sent to a host; the theorems are in Commands
--   Array           backend/phif/flasharray/client.py. The client in memory, MockFlashArrayClient: its
--                   volumes (Mock), its hosts (MockHosts, Hosts), the volumes' abstract specification
--                   (Volumes). The client of the REST API, PureFlashArrayClient: its requests (Rest,
--                   HostCalls, VolumeCalls, PairCalls, Size) and what they come to (Sent, VvolIds). The
--                   registration of hosts, _register_host_group, over a record of the operations that
--                   it calls (Register, Registration, Owners), which the client in memory fills
--                   (InMemory, Making). The SDK and the array behind it are a parameter.
--   Api             backend/phif/api/migrations.py: the tests of a pair of hypervisors (Pairs), the
--                   list of destinations (Destinations, Agreement), a request for a migration with
--                   run_migration and its row (Migrations, Single, Acceptance), and the requests for
--                   groups (Groups, Lifecycle). A handler is one step over the rows that it reads, but
--                   for create_migration, whose commit may find other rows than its queries.
--   Jobs/Scheduler  backend/phif/jobs/scheduler.py: kick and run_scheduler_cycle, with the ends of tasks
--                   and their done-callbacks as steps (Runners, Passes)
--   Api/Closing     the job of run_migration and what it writes to the migration's row (Closed)
--   Jobs/Settings, Jobs/Monitor
--                   backend/phif/db/settings_store.py, and run_monitor_cycle of
--                   backend/phif/jobs/monitor.py (Watching)
--   Connector       backend/phif/connectors/base.py: the pruning of departed hosts (Departed, Pruning),
--                   the readiness of hosts (Readiness) and the routing of actions, with the registry
--                   of connector classes, backend/phif/connectors/registry.py (Registry)
--   Cinder          backend/phif/connectors/openstack/pure.py: the stanza of a Cinder backend
--   Proxmox         backend/phif/connectors/proxmox/connector.py, the connector of a Proxmox cluster:
--                   the commands on nodes (Session), the nodes (Nodes), the VMs (Machines, Capture,
--                   Create), their disks (Disks) and volumes (Volumes), deployment and storage
--                   (Setup), texts (Names). About them: tries (Retry), names (Fresh), interfaces (Nets),
--                   what actions do (Doing), among them the capture (Reading), a creation that is
--                   refused (Refusal), a dry run (DryRun), a deployment that is refused (Preflight)
--   Xcpng           backend/phif/connectors/xcpng/connector.py, the connector of an XCP-ng pool: what
--                   xe prints (Records, Grouping), the hosts (Pool), the VMs (Machines, Capture,
--                   Creation, Removal), their disks (Disks); what a deletion spares (Sparing)
--
-- Conventions. A `str` is a String, read as ASCII where it is put in lower case or stripped; `None`
-- is `none`; an exception is the value `err`, with the name of its type when it is not a
-- MigrationError. Times in seconds are natural numbers of milliseconds in
-- Migrate, and of seconds elsewhere. A Python `while` with a bound
-- is structural recursion on the number of rounds left, so no fuel is needed there. A free numbered name
-- is looked for with as many rounds as there are names (Prelude/Search); where the names are the array's,
-- the number of rounds is an argument. A compensation, a closure in the
-- source, is a constructor of `Undo` that names what it does.
--
-- Not modelled. Of the connectors of the single hypervisors those of Proxmox and XCP-ng are modelled
-- from the list of VMs to their deletion, with their disks, and the stanza of Cinder; the others, and of
-- these two the registration of hosts and the connectivity, are scripts over the products' REST
-- interfaces and shells, as are the plugins that they install. The orchestrator reaches every connector
-- only as a parameter. Parameters are also the shell of a node, the array behind the SDK, the database,
-- the clock and the ids that the database makes. The locks that serialise the commands on a node and the
-- creations in a cluster are left out, since one call at a time is looked at there.
-- The waiting loops of the scheduler and the monitor, secrets, the database sessions and logging, also
-- what a log line raises on a value that it cannot print, are left out, and of the web API all but the
-- requests of migrations. A call that is cancelled in the middle is not modelled: an action runs to its
-- end, and a request of the web API is one step, but for create_migration, whose commit may find other
-- rows than its queries have seen.
-- The theorems about a migration rest only on the answers of the connectors.
pub mod Prelude
pub mod Api
pub mod Array
pub mod Cinder
pub mod Connector
pub mod Group
pub mod Host
pub mod Jobs
pub mod Migrate
pub mod Proxmox
pub mod Xcpng
