-- ===== src/Lib.antt =====
-- RaceLink Host drives LED nodes over LoRa: it builds packet bodies, plans which packets an action
-- takes, sends them through one gateway for each network, and matches the nodes' replies to the
-- requests that wait for them. This library models the parts of the host that decide what goes on
-- the air, who is waiting for what, and which networks may exist side by side.
--
-- The parts, and the files that model them:
-- - Struct: the part of Python's struct module that the builders use (little-endian fields).
-- - Protocol, with Packets, RfConfig, OffsetBody, ControlBody: racelink/protocol/packets.py, one
--   function for each builder and parser, under the source's names. Flags: build_flags_byte of
--   racelink/domain/flags.py.
-- - Formula: racelink/domain/offset_formula.py.
-- - Dispatch.Op and Dispatch.Optimizer: racelink/services/offset_dispatch_optimizer.py. Its plans call
--   build_offset_body for their bodies and the evaluator of Formula for explicit values. What a node
--   does with the packets is described in Optimizer/Ops and Optimizer/Bodies, over
--   parse_offset_body.
-- - Matcher: racelink/services/pending_requests.py. The registry is a record of an association list
--   (the unicast buckets) and a list; register, cancel and try_match take and return it. A matcher
--   is an object that several lists may share: it has an identity, and a hit is written back
--   wherever the object stands.
-- - RfPolicy: racelink/domain/rf_policy.py. Channels: racelink/domain/rf_channels.py, whose channels
--   become configurations of networks.
-- - Broadcast: racelink/transport/broadcast_target.py.
-- - Protocol.Codec: racelink/protocol/codec.py; `opcode_name` is the look-up in the generated table.
-- - StateScope: racelink/domain/state_scope.py.
-- - Boundary and Scene.Consistency: validate_group_membership and validate_scene_scope_consistency of
--   racelink/domain/network_boundary.py; a raised violation is `some`, a return is
--   `none`.
-- - Dispatch.Action, Dispatch.Planner, Planner.Container: racelink/services/dispatch_planner.py, one
--   function for each of its functions. A plan is made of operations of Dispatch.Op, and calls the
--   optimizer for an offset_group.
-- - Dispatch.Cost: racelink/services/scene_cost_estimator.py, over the same plans.
-- - Sending: the bodies of racelink/services/control_service.py and of send_sync.
-- - Scene.Scope: racelink/services/scene_network_scope.py.
-- - Scene.Runner, Runner.Detail, Scene.Run: racelink/services/scene_runner_service.py. Its scope fields
--   are an argument, since run and the container handler restore them on every exit; `log` is the
--   list of calls made so far.
-- - Tracker: racelink/services/missing_transport_tracker.py, its operations as functions and their
--   interleavings as the relation Step of Tracker.Settled.
-- - Scene.Canonical: the validation of targets and offset blocks in
--   racelink/services/scenes_service.py, from a document (Json) to the values that the planner and
--   the optimizer take. `strip_upper` and `is_mac12` are parameters, Python's str methods and the
--   regular expression. Canonical/Container has the target and the offset block of a container.
-- - Scene.Renumber: _renumber_action and _remap_action of the same file, one walk over a canonical
--   action with the rule for one id as an argument. The ids of a canonical action are integers, so
--   the branch for an entry without one is left out.
-- - Scene.Collapse: collapse_actions_to_broadcast of the same file, without its flags.
-- - Prelude: shared names, lists and integers; Tests: runs and uses of the theorems.
--
-- Numbers: Python's integers are the type of Prelude/Int, unbounded and signed; `v & (2^w - 1)` is
-- `mask (2^w) v`. Exceptions are values of Prelude/Exceptions, without their texts. Times are whole
-- milliseconds. A missing key or None is `none`. No function takes fuel: every loop of the source
-- that is modelled runs over a finite list, but for the wait loop, which is modelled as the list of
-- its wake-ups and says `none` where these do not end it.
--
-- Parameters stand for what is not in the host's own logic: `int_of_text` is Python's int() on a
-- text, `transport_for_network` is the controller's look-up, and the record Services of Scene.Runner
-- holds the services that the runner calls, with what the repositories answer at that moment.
--
-- Not modelled: threads, locks and condition variables (a call is one step), serial ports and
-- sockets, the web layer and the frontend, log messages and the texts of errors, the storage of
-- scene documents and what their validation does beside targets and offset blocks, migration
-- between channels, and persistence.
pub mod Prelude
pub mod Struct
pub mod Protocol
pub mod Formula
pub mod Dispatch
pub mod Matcher
pub mod RfPolicy
pub mod Channels
pub mod Broadcast
pub mod StateScope
pub mod Boundary
pub mod Sending
pub mod Scene
pub mod Tracker
pub mod Tests
