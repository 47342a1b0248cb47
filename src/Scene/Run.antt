-- ===== src/Scene/Run.antt =====
-- racelink/services/scene_runner_service.py: `run`, which plays the actions of a scene in their
-- order, and reports them as they start and end.
pub mod Rows
pub mod Calls
pub mod InScope
pub mod Parity
use race_link_host.Prelude.{
  ℕ, zero, suc, ◌+◌, ◌-◌, ◌*◌, ◌/◌, ◌%◌, ◌≤◌, ◌<◌, ◌≡◌, refl, sym, ap, ◌∙◌, ◌≢◌, ◌↔◌, ◌⊎◌, inl, inr,
  Bool, true, false, not, ◌&&◌, ◌||◌, Option, none, some, List, [], ◌∷◌, ◌++◌, map, arith, str_eq,
  eq_iff, String, ltb, leb, ◌==◌, ==_iff, lt→leb_false, if◌then◌else◌, Bool-cases, Option-cases,
  get_or, is_some, length, take, drop, keep_if, any_of, all_of, length-append, length-map,
  length-keep_if, All, Within, Within-left, Within-right, Within-append, append-eq-nil, sum,
  sum-append, ℤ, pos, negsuc, pos_part, neg_part, sub_ℕ, ◌+ℤ◌, ◌*ℤ◌, ◌≤ℤ◌, leb_ℤ, eqb_ℤ, distance,
  mask, clamp, clamp_bounds, clamp_id, mask-byte-lt, Error, value_error, key_error, struct_error,
  index_error, assertion_error, Result, ok, err, ◌>>=◌, ◌>>◌, require, or_raise, map_ok,
  map_ok-eq-map, lower_eq, &&-parts, ||-parts, not-parts, append_nil, append_assoc, take_whole,
  WhenOk, WhenOk-of, WhenOk-value, WhenOk-mono, WhenOk-if, WhenOk-require, WhenOk-bind,
  WhenOk-map_ok, All-append, All-map,
}
use race_link_host.Dispatch.Op.{ActionKind}
use race_link_host.Dispatch.Action.{ActionFields, Action, action}
use race_link_host.Scene.Scope.{
  Fleet, NetworkScope, explicit_scope, auto_scope, Scene, is_empty, scene_network_ids,
}
use race_link_host.Scene.Runner.{
  Services, Host, RunScope, RunError, skipped_aborted, no_run_detail, ActionResult, RowState,
  started_row, skipped_row, state_of, target_of_ids, dispatch,
}

-- A progress event.
pub record Progress : Type 0 where
  pub index : ℕ
  pub kind : ActionKind
  pub state : RowState
  pub error : Option RunError

pub record SceneRunResult : Type 0 where
  pub is_ok : Bool
  pub scene_found : Bool
  pub actions : List ActionResult
  pub aborted_at_index : Option ℕ

abbrev pub kind_of : Action → ActionKind
kind_of (action a children) = a.kind

abbrev is_explicit : NetworkScope → Bool
is_explicit (explicit_scope ids) = true
is_explicit auto_scope = false

-- The scope of the scene's broadcasts.
unfoldable pub scope_of_scene : Fleet → Scene → RunScope
scope_of_scene fleet scene =
    let scope_ids = scene_network_ids fleet scene in
    record {
      broadcast_scope = target_of_ids scope_ids;
      is_explicit_empty = is_explicit scene.network_scope && is_empty scope_ids;
    }

-- The placeholders of the actions from `index` on.
abbrev pub skipped_result : ℕ → ActionKind → ActionResult
skipped_result index kind = record {
  index = index;
  kind = kind;
  is_ok = false;
  error = some skipped_aborted;
  degraded = false;
  detail = no_run_detail;
}

unfoldable pub skipped_from : ℕ → List Action → List ActionResult
skipped_from index [] = []
skipped_from index (a ∷ actions) =
    skipped_result index (kind_of a) ∷ skipped_from (suc index) actions

abbrev pub started_event : ℕ → ActionKind → Progress
started_event index kind = record { index = index; kind = kind; state = started_row; error = none }

abbrev pub result_event : ActionResult → Progress
result_event r = record { index = r.index; kind = r.kind; state = state_of r; error = r.error }

abbrev pub skipped_event : ActionResult → Progress
skipped_event r = record { index = r.index; kind = r.kind; state = skipped_row; error = r.error }

-- What the loop has gathered.
pub record Played (World : Type 0) : Type 0 where
  pub results : List ActionResult
  pub events : List Progress
  pub aborted_at_index : Option ℕ
  pub host : Host World

-- `stop_on_error and not result.ok and not result.degraded`
abbrev pub aborts : Bool → ActionResult → Bool
aborts stop_on_error r = stop_on_error && not r.is_ok && not r.degraded

module _ {World : Type 0} (services : Services World) where
  abbrev pub then_play : ℕ → ActionKind → ActionResult → Played World → Played World
  then_play index kind r rest = record {
    results = r ∷ rest.results;
    events = started_event index kind ∷ result_event r ∷ rest.events;
    aborted_at_index = rest.aborted_at_index;
    host = rest.host;
  }

  abbrev pub abort : ℕ → List Action → Host World → Played World
  abort index actions h =
      let skipped = skipped_from (suc index) actions in
      record {
        results = skipped;
        events = map skipped_event skipped;
        aborted_at_index = some index;
        host = h;
      }

  -- The loop over the actions.
  unfoldable pub play : RunScope → Bool → ℕ → List Action → Host World → Played World
  play scope stop_on_error index [] h = record {
    results = [];
    events = [];
    aborted_at_index = none;
    host = h;
  }
  play scope stop_on_error index (a ∷ actions) h =
      let done = dispatch services scope index a h in
      let rest = play scope stop_on_error (suc index) actions done.1 in
      then_play index (kind_of a) done.0
        (if aborts stop_on_error done.0 then abort index actions done.1 else rest)

  abbrev pub play_scene : Scene → Host World → Played World
  play_scene scene h =
      play (scope_of_scene (services.fleet h.world) scene) scene.stop_on_error 0 scene.actions h

  unfoldable pub run : Option Scene → Host World → (SceneRunResult × List Progress × Host World)
  run none h =
      (record { is_ok = false; scene_found = false; actions = []; aborted_at_index = none }, [], h)
  run (some scene) h =
      let played = play_scene scene h in
      (
        record {
          is_ok = all_of ActionResult.is_ok played.results;
          scene_found = true;
          actions = played.results;
          aborted_at_index = played.aborted_at_index;
        },
        played.events,
        played.host,
      )
