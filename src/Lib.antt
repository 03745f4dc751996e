-- ===== src/Lib.antt =====
-- Verification library of EasyProxies V2, a proxy pool manager. It models the parts that decide
-- which nodes serve traffic: the member state machine of the proxy groups, the healer that keeps a
-- group at its capacity, the state of a node that all pools share, the landing location that a
-- node is filed under, the conditions and rules that tag it, the filter that makes it a member of a
-- group, the queues of nodes whose tags or membership must be computed again, the journal that
-- carries health probes to the groups, and the choice of a member for each connection.
--
-- How the parts interact. A probe of a node is an event that is validated (Probe) and ends in
-- `Decide`, which may move its location (Location). New facts or a new location put the node into
-- the tag queue (Recompute); its rules' conditions (Facts) decide which rules match, and the
-- resolver which of these apply (Tags). Other tags put the node into the membership queue (Dirty),
-- whose batches are filtered again for each group (Select). The new members reach a group by
-- `ReconcileSilent`; a reload keeps what changed while it ran (Rebase). Health probes go through the
-- journal (Journal) and, with the failures of connections, evict and readmit members (Group). The
-- healer plans promotions, probes and refreshes from the same states (Healer). A connection is
-- dialled through the members of a pool (Dial); outside the groups a node is only blacklisted for a
-- time (Pool).
--
-- Files. Base holds tests, lists, association lists (a Go map; a map is visited in the list's
-- order), integers and sorting.
-- - Group: internal/group/runtime.go. `State` has the records and the package's variables as one
--   `World`; `Member` the methods of a member; `Sweep` the loops over all groups
--   (`propagateEviction`, `recoverEvictedNodeEverywhere`, `RestoreGroupMember`); `Failure`
--   (`RecordFailure`, `RecordGroupHealthFailure`); `Success` (`RecordHealthSuccess`,
--   `RestoreGroupMember`); `Current` (`MemberAvailable`, `CurrentTag`, `SetCurrentTag`); `Register`;
--   `Reconcile` (`ReconcileSilent`, `NotifyEvents`); `Snapshots` (`GroupRuntimeSnapshots`, the cleanup
--   of `Register`, `Reset`). Invariant, Spread, Clearing, Put, Failing,
--   Recovering, Serving, Installing, Settling, Migrating, Leaving and History prove the invariant; Probes,
--   Replay, Ring, Once, Reported and Redelivery treat replayed probes; Banned and Threshold the way
--   out of service; Recovery and
--   Readmission the way back; Everywhere the loops over groups.
-- - Healer: internal/group/healer.go (Policy, Plan) and healer_coordinator.go (Attempts);
--   Refill, Slots, Capacity, Budget and Rounds prove.
-- - Location: internal/nodeloc/state.go (Decide); Debounce and Stability prove.
-- - Tags: internal/nodetag/resolver.go and model.go (Resolve); Mutex and Winner
--   prove.
-- - Select: internal/noderegion/region.go (Region), internal/nodeselect/filter.go and
--   internal/groupmember/filter.go (Filter); Membership proves.
-- - Pool: internal/outbound/pool/shared_state.go (Shared); Blacklist and Window prove.
-- - Dial: internal/outbound/pool/pool.go: which member serves a connection (Select) and the attempts
--   of a dial (Attempt); Rotation, Bounded and Tries prove.
-- - Dirty: internal/app/membership_queue.go as a step relation (Queue); Retention proves.
-- - Facts: internal/nodefacts: schema.go and fact.go (Schema), condition.go (Condition, Validate) and
--   evaluate.go (Compare, Evaluate). Version 1 of the region rules overwrites the version of a
--   child; here the version is an argument (`evaluate_as`). Registry is the table of the default
--   registry, from schema.go and diagnostic.go. Kleene, Frame, Bounds, Sound, Total, Unmeasured and
--   Standard prove.
-- - Recompute: internal/nodetag/queue.go as a step relation (Queue); Covered and Armed prove.
-- - Journal: internal/store/health_events.go (Store), a consumer in
--   internal/monitor/health_event_hub.go (Subscription), both with publishers and pruning (System);
--   Order, Prune, Delivered, Kept, Exact and Once prove.
-- - Rebase: internal/boxmgr/reload_rebase.go (Merge); Topology proves.
-- - Probe: internal/probe/applier.go (Event); Streams proves.
-- The Tests modules run the definitions on concrete inputs.
--
-- Conventions. A time or duration is a number of nanoseconds, and the zero time is 0. The clock is
-- an argument of each operation. Ids of nodes, tags and groups are natural numbers, and integers
-- where a sign is tested (Healer, Dirty). An operation under a lock is one step; `step` and `run` of
-- Group.History are sequences of them. A counter of bytes or of probes is unbounded; the counter of
-- active connections wraps around at 32 bits. The loop of a dial runs on
-- fuel, one more than the members, which is proved to be enough; each other loop of the source is
-- recursion on the list or tree that it ranges over.
--
-- What is not modelled. Of the group runtime: what the snapshots return, the activation handlers
-- and the subscribers. Of the coordinator: `runGroup` and
-- the backend; in `perform`, the failure of the last audit, which changes no state. Of the health
-- hub: its index of consumers, the wake channel and the retry timer. Of the pool: the snapshots and
-- their publication, the updates of the members and the connections' tracking. Of `nodefacts`: the
-- loader. Of the other packages, persistence, HTTP, configuration, parsing and the dialling itself:
-- they are I/O or third-party glue around these parts.
-- Library code is a parameter: the country table and text folding of `noderegion`, the address
-- parser of `nodeloc`; in `nodefacts` the JSON of a rule, numbers as texts, folding, the order of
-- texts and regular expressions; in the rebase the identity of a URI.
pub mod Base
pub mod Group
pub mod Location
pub mod Tags
pub mod Healer
pub mod Pool
pub mod Select
pub mod Dirty
pub mod Probe
pub mod Facts
pub mod Recompute
pub mod Journal
pub mod Dial
pub mod Rebase
