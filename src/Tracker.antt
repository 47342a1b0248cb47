-- ===== src/Tracker.antt =====
-- racelink/services/missing_transport_tracker.py: polling for known gateways that are not attached.
-- `upper` is Python's str.upper, and `rediscover` what soft_rediscover does to the controller, also
-- when it raises. A call under the lock is one step.
pub mod Settled
pub mod Polling
use race_link_host.Prelude.{
  ℕ, zero, suc, ◌+◌, ◌-◌, ◌*◌, ◌/◌, ◌%◌, ◌≤◌, ◌<◌, ◌≡◌, refl, sym, ap, ◌∙◌, ◌≢◌, ◌↔◌, ◌⊎◌, inl, inr,
  Bool, true, false, not, ◌&&◌, ◌||◌, Option, none, some, List, [], ◌∷◌, ◌++◌, map, arith, str_eq,
  eq_iff, String, ltb, leb, ◌==◌, ==_iff, lt→leb_false, if◌then◌else◌, Bool-cases, Option-cases,
  get_or, is_some, length, take, drop, keep_if, any_of, all_of, length-append, length-map,
  length-keep_if, All, Within, Within-left, Within-right, Within-append, append-eq-nil, sum,
  sum-append, ℤ, pos, negsuc, pos_part, neg_part, sub_ℕ, ◌+ℤ◌, ◌*ℤ◌, ◌≤ℤ◌, leb_ℤ, eqb_ℤ, distance,
  mask, clamp, clamp_bounds, clamp_id, mask-byte-lt, Error, value_error, key_error, struct_error,
  index_error, assertion_error, Result, ok, err, ◌>>=◌, ◌>>◌, require, or_raise, map_ok,
  map_ok-eq-map, lower_eq, &&-parts, ||-parts, not-parts, append_nil, append_assoc, take_whole,
  if-both, if-true, if-false, WhenOk, WhenOk-of, WhenOk-value, WhenOk-mono, WhenOk-if,
  WhenOk-require, WhenOk-bind, WhenOk-map_ok, All-append, All-map,
}

-- What the tracker reads of the controller: the gateway of each network, and of each transport.
pub record Gateways : Type 0 where
  pub gateway_macs : List (Option String)
  pub ident_macs : List (Option String)

pub record Tracker : Type 0 where
  pub cancelled : List String
  pub timer : Option ℕ
  pub next_fire_ts : Option ℕ
  pub is_shut_down : Bool
  -- The identity of the next timer, and the missing lists that were broadcast, the last first.
  pub next_timer : ℕ
  pub broadcasts : List (List String)

abbrev pub new_tracker : Tracker
new_tracker = record {
  cancelled = [];
  timer = none;
  next_fire_ts = none;
  is_shut_down = false;
  next_timer = 0;
  broadcasts = [];
}

module _ (upper : String → String) where
  -- `out.add(str(mac).upper())`, where the mac is given and not empty.
  unfoldable pub macs_of : List (Option String) → List String
  macs_of [] = []
  macs_of (none ∷ macs) = macs_of macs
  macs_of (some mac ∷ macs) =
      let rest = macs_of macs in if str_eq mac "" then rest else upper mac ∷ rest

  abbrev pub expected_macs : Gateways → List String
  expected_macs g = macs_of g.gateway_macs

  abbrev pub attached_macs : Gateways → List String
  attached_macs g = macs_of g.ident_macs

  -- Set difference.
  abbrev pub minus : List String → List String → List String
  minus xs ys = keep_if (λ x. not (any_of (str_eq x) ys)) xs

  unfoldable pub missing_macs : Gateways → Tracker → List String
  missing_macs g t = minus (minus (expected_macs g) (attached_macs g)) t.cancelled

  module _ (poll_interval : ℕ) where
    abbrev pub cancel_timer : Tracker → Tracker
    cancel_timer t = record t { timer = none }

    abbrev pub arm : ℕ → Tracker → Tracker
    arm now t = record t {
      timer = some t.next_timer;
      next_fire_ts = some (now + poll_interval);
      next_timer = suc t.next_timer;
    }

    abbrev pub arm_once : ℕ → Option ℕ → Tracker → Tracker
    arm_once now none t = arm now t
    arm_once now (some running) t = t

    abbrev pub broadcast_state : List String → Tracker → Tracker
    broadcast_state missing t = record t { broadcasts = missing ∷ t.broadcasts }

    abbrev pub evaluate_missing : ℕ → List String → Tracker → Tracker
    evaluate_missing now [] t = broadcast_state [] (record (cancel_timer t) { next_fire_ts = none })
    evaluate_missing now (mac ∷ macs) t = broadcast_state (mac ∷ macs) (arm_once now t.timer t)

    unfoldable pub evaluate_and_arm : ℕ → Gateways → Tracker → Tracker
    evaluate_and_arm now g t =
        if t.is_shut_down then cancel_timer t else evaluate_missing now (missing_macs g t) t

    -- The first block of `_fire`, under the lock.
    abbrev pub drop_timer : Tracker → Tracker
    drop_timer t = record t { timer = none; next_fire_ts = none }

    abbrev pub poll : (Gateways → Gateways) → List String → Gateways → Gateways
    poll rediscover [] g = g
    poll rediscover (mac ∷ macs) g = rediscover g

    unfoldable pub fire : (Gateways → Gateways) → ℕ → Gateways × Tracker → Gateways × Tracker
    fire rediscover now (g, t) =
        let dropped = drop_timer t in
        if t.is_shut_down
        then (g, dropped)
        else (let found = poll rediscover (missing_macs g dropped) g in
            (found, evaluate_and_arm now found dropped))

    abbrev pub cancelled_by : Gateways → Option String → List String
    cancelled_by g none = minus (expected_macs g) (attached_macs g)
    cancelled_by g (some mac) = upper mac ∷ []

    unfoldable pub cancel : ℕ → Option String → Gateways → Tracker → Tracker
    cancel now ident_mac g t =
        evaluate_and_arm now g (record t { cancelled = cancelled_by g ident_mac ++ t.cancelled })

    unfoldable pub clear_cancelled : ℕ → Gateways → Tracker → Tracker
    clear_cancelled now g t = evaluate_and_arm now g (record t { cancelled = [] })

    unfoldable pub shutdown : Tracker → Tracker
    shutdown t = cancel_timer (record t { is_shut_down = true })
