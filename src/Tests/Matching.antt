-- ===== src/Tests/Matching.antt =====
-- A request for the configuration of one node, and its reply.
use race_link_host.Prelude.{
  ◌↔◌, suc, ◌≡◌, refl, ◌⊎◌, inl, inr, true, false, Option, none, some, [], ◌∷◌, arith, String, ℤ,
  pos, value_error, ok, err,
}
use race_link_host.Matcher.{
  Event, PendingMatcher, matches, Registry, empty, unicast_key, bytes_eq, add, enter, register,
  cancel, record_hit, write_back, pending_count, try_match, Reason, wait,
}
use race_link_host.Matcher.Buckets.{IsRegistered, IsFiled, IsFiled-empty, enter-IsFiled, entered}
use race_link_host.Matcher.Consume.{
  HasTaken, HaveReplaced, HasReplaced, reply_is_matched, hit-IsRegistered,
}
use race_link_host.Matcher.Lifecycle.{is_unrouted, cancel-register, register_lem}
use race_link_host.Matcher.Wait.{wait_ends}

abbrev no_text : String → Option ℤ
no_text s = none

-- Waits for the GET_CONFIG reply of one node over gateway "gw".
abbrev request : PendingMatcher
request = record {
  identity = 1;
  sender_filter = some ((170 ∷ 187 ∷ 204 ∷ []) ∷ []);
  expected_opcode = some (pos 10);
  expected_ack_of = none;
  discriminator_field = none;
  discriminator_value = none;
  gateway_id = some "gw";
  expected_count = 1;
  idle_timeout = 0;
  max_timeout = 1500;
  collected = [];
  last_match = none;
  registered = 0;
  done_flag = false;
}

-- Collects replies from anyone.
abbrev collector : PendingMatcher
collector = record request {
  identity = 2;
  sender_filter = none;
  expected_count = 5;
  idle_timeout = 600;
}

abbrev reply : Event
reply = record {
  gateway_id = some "gw";
  sender3 = some (170 ∷ 187 ∷ 204 ∷ []);
  opc = some (pos 10);
  ack_of = none;
  others = [];
}

abbrev waiting : Registry
waiting = enter (unicast_key request) request empty

waiting-IsFiled : IsFiled waiting
waiting-IsFiled = enter-IsFiled (unicast_key request) request empty IsFiled-empty refl

request-IsRegistered : IsRegistered request waiting
request-IsRegistered = entered (unicast_key request) request empty

reply_accepted : matches no_text request reply ≡ true
unfolding matches bytes_eq
reply_accepted = refl

reply_is_matched_example :
    (x : PendingMatcher) × IsRegistered x waiting
    × (matches no_text x reply ≡ true)
    × (try_match no_text 40 reply waiting
        ≡ (some (record_hit 40 reply x), write_back (record_hit 40 reply x) waiting))
reply_is_matched_example =
    reply_is_matched no_text 40 reply waiting waiting-IsFiled request request-IsRegistered tt
      reply_accepted

hit-IsRegistered_example :
    (try_match no_text 40 reply waiting ≡ (none, waiting))
    ⊎ ((x : PendingMatcher) × (hit : PendingMatcher) × (r : Registry) × (try_match no_text 40 reply
            waiting
          ≡ (some hit, r))
        × IsRegistered x waiting
        × (matches no_text x reply ≡ true)
        × HasTaken 40 reply x hit
        × HaveReplaced hit waiting.unicast r.unicast
        × HasReplaced hit waiting.broadcast r.broadcast)
hit-IsRegistered_example = hit-IsRegistered no_text 40 reply waiting waiting-IsFiled

register-collector :
    register collector waiting ≡ ok (enter (unicast_key collector) collector waiting)
unfolding register
register-collector = refl

cancel-register_example :
    cancel collector (enter (unicast_key collector) collector waiting) ≡ waiting
unfolding unicast_key add
cancel-register_example =
    cancel-register collector waiting (enter (unicast_key collector) collector waiting)
      (λ h. cc h, tt) ((omega arith, tt), tt) tt register-collector

register_lem_example :
    ((is_unrouted collector ≡ true) × (register collector waiting ≡ err value_error))
    ⊎ ((is_unrouted collector ≡ false)
        × ((r : Registry) × (register collector waiting ≡ ok r)
            × (IsRegistered request r ↔ ((request ≡ collector) ⊎ IsRegistered request waiting))
            × IsFiled r
            × (pending_count r ≡ suc (pending_count waiting))))
register_lem_example = register_lem collector request waiting waiting-IsFiled

wait_ends_example :
    (reason : Reason) × (wait 1000 ((1200, collector) ∷ (2500, collector) ∷ []) ≡ some reason)
wait_ends_example =
    wait_ends 1000 ((1200, collector) ∷ (2500, collector) ∷ []) (inr (inl (omega arith)))
