-- ===== src/Matcher/Match.antt =====
-- An event finds a matcher by the buckets exactly when some registered matcher accepts it.
use race_link_host.Prelude.{
  &&-parts, ◌≡◌, refl, sym, ap, ◌∙◌, inl, inr, Bool, true, false, ◌||◌, Option, none, some, List,
  [], ◌∷◌, ◌++◌, arith, eq_iff, String, ◌==◌, Bool-cases, get_or, Within, Within-left, Within-right,
  ℤ, pos, negsuc, ◌≤ℤ◌, eqb_ℤ, mask,
}
use race_link_host.Struct.{Bytes}
use race_link_host.Matcher.{
  Event, PendingMatcher, bytes_eq, opc_ack, event_opc, matches, Registry, reply_key, key_for,
  unicast_key, bucket, from_sender, acked_bucket, candidates, first_match, gateway_matches,
  sender_matches, reply_matches,
}
use race_link_host.Matcher.Buckets.{bytes_eq_iff, home, IsRegistered}

module _ (int_of_text : String → Option ℤ) where
  pub first_match-some :
      (ev : Event) (ms : List PendingMatcher) (m : PendingMatcher)
      → Within m ms
      → matches int_of_text m ev ≡ true
      → (x : PendingMatcher) × (first_match int_of_text ev ms ≡ some x)
  unfolding first_match
  first_match-some ev [] m h k = absurd h
  first_match-some ev (y ∷ ms) m (inl e) k = (y, rw (← e, k))
  first_match-some ev (y ∷ ms) m (inr h) k = elim (Bool-cases (matches int_of_text y ev)) [
    | inl hit ↦ (y, rw hit)
    | inr miss ↦ let later = first_match-some ev ms m h k in (later.0, rw miss later.1)
  ]

  pub first_match_sound :
      (ev : Event) (ms : List PendingMatcher) (x : PendingMatcher)
      → first_match int_of_text ev ms ≡ some x
      → (matches int_of_text x ev ≡ true) × Within x ms
  unfolding first_match
  first_match_sound ev [] x h = absurd (cc h)
  first_match_sound ev (y ∷ ms) x h = elim (Bool-cases (matches int_of_text y ev)) [
    | inl hit ↦ let same : y ≡ x = cc (rw hit at h) in (rw (← same) hit, inl (sym same))
    | inr miss ↦ let later = first_match_sound ev ms x (rw miss at h) in (later.0, inr later.1)
  ]

-- A request that waits for an acknowledgement waits for that of an opcode, which is not negative.
abbrev pub AckIsOpcode : Option ℤ → Type 0
AckIsOpcode none = Unit
AckIsOpcode (some ack) = pos 0 ≤ℤ ack

-- The bucket of the event's own opcode, and that of the opcode which it acknowledges.
own_bucket :
    (s : Bytes) (ev : Event) (r : Registry) (x : PendingMatcher)
    → Within x (bucket (s, event_opc ev) r.unicast)
    → Within x (from_sender (some s) ev r)
own_bucket s ev r x h =
    Within-right x (acked_bucket ev.ack_of s ev r) (bucket (s, event_opc ev) r.unicast) h

ack_bucket :
    (s : Bytes) (ev : Event) (r : Registry) (x : PendingMatcher) (a : ℤ)
    → ev.ack_of ≡ some a
    → (event_opc ev == opc_ack) ≡ true
    → Within x (bucket (s, mask 128 a) r.unicast)
    → Within x (from_sender (some s) ev r)
ack_bucket s ev r x a e k h =
    rw (e, k)
      (Within-left x (bucket (s, mask 128 a) r.unicast) (bucket (s, event_opc ev) r.unicast) h)

ack_given : (o : Option ℤ) (a : ℤ) → eqb_ℤ (get_or o (negsuc 0)) a ≡ true → pos 0 ≤ℤ a → o ≡ some a
ack_given none (pos n) h k = ground arith
ack_given none (negsuc n) h k = absurd (omega arith)
ack_given (some (pos m)) (pos n) h k = ground arith
ack_given (some (negsuc m)) (pos n) h k = ground arith
ack_given (some b) (negsuc n) h k = absurd (omega arith)

opcode_given :
    (o : Option ℤ) (k : ℤ)
    → eqb_ℤ (pos (mask 128 (get_or o (negsuc 0)))) k ≡ true
    → mask 128 k ≡ mask 128 (get_or o (negsuc 0))
opcode_given none (pos n) h = ground arith
opcode_given none (negsuc n) h = ground arith
opcode_given (some (pos m)) (pos n) h = ground arith
opcode_given (some (negsuc m)) (pos n) h = ground arith
opcode_given (some (pos m)) (negsuc n) h = ground arith
opcode_given (some (negsuc m)) (negsuc n) h = ground arith

reached_fast :
    (s : Bytes) (ack opcode : Option ℤ) (k : ℤ) (ev : Event) (r : Registry) (x : PendingMatcher)
    → reply_key ack opcode ≡ some k
    → reply_matches ack opcode ev ≡ true
    → AckIsOpcode ack
    → Within x (bucket (s, mask 128 k) r.unicast)
    → Within x (from_sender (some s) ev r)
reached_fast s (some a) opcode k ev r x e m h w =
    let same : a ≡ k = cc in
    let both = &&-parts (event_opc ev == opc_ack) (eqb_ℤ (get_or ev.ack_of (negsuc 0)) a) m in
    ack_bucket s ev r x a (ack_given ev.ack_of a both.1 h) both.0 (rw same w)
reached_fast s none (some o) k ev r x e m h w =
    let same : o ≡ k = cc in own_bucket s ev r x (rw (← opcode_given ev.opc o m, same) w)
reached_fast s none none k ev r x e m h w = absurd (cc e)

reached :
    (filter : Option (List Bytes)) (s3 : Option Bytes) (ack opcode : Option ℤ) (ev : Event)
    (r : Registry) (x : PendingMatcher)
    → sender_matches filter s3 ≡ true
    → reply_matches ack opcode ev ≡ true
    → AckIsOpcode ack
    → (key : Option ℤ) → reply_key ack opcode ≡ key
    → Within x (home (key_for filter key) r)
    → Within x (from_sender s3 ev r ++ r.broadcast)
reached (some (s ∷ [])) (some s3) ack opcode ev r x hs hr ha (some k) e w =
    let same : s ≡ s3 = (bytes_eq_iff s s3).0 (split_or (bytes_eq s s3) hs) in
    Within-left x (from_sender (some s3) ev r) r.broadcast
      (reached_fast s3 ack opcode k ev r x e hr ha (rw (← same) w))
  where
    split_or : (b : Bool) → (b || false) ≡ true → b ≡ true
    split_or true h = refl
    split_or false h = h
reached none s3 ack opcode ev r x hs hr ha key e w =
    Within-right x (from_sender s3 ev r) r.broadcast w
reached (some []) s3 ack opcode ev r x hs hr ha key e w =
    Within-right x (from_sender s3 ev r) r.broadcast w
reached (some (s ∷ [])) s3 ack opcode ev r x hs hr ha none e w =
    Within-right x (from_sender s3 ev r) r.broadcast w
reached (some (s ∷ [])) none ack opcode ev r x hs hr ha (some k) e w = absurd (cc hs)
reached (some (s ∷ t ∷ rest)) s3 ack opcode ev r x hs hr ha key e w =
    Within-right x (from_sender s3 ev r) r.broadcast w

module _ (int_of_text : String → Option ℤ) where
  -- A registered matcher that accepts an event is among its candidates.
  pub candidate :
      (ev : Event) (r : Registry) (m : PendingMatcher)
      → IsRegistered m r
      → AckIsOpcode m.expected_ack_of
      → matches int_of_text m ev ≡ true
      → Within m (candidates ev r)
  unfolding matches candidates unicast_key
  candidate ev r m w ha h =
      let g = &&-parts (gateway_matches m.gateway_id ev.gateway_id) _ h in
      let s = &&-parts (sender_matches m.sender_filter ev.sender3) _ g.1 in
      let p = &&-parts (reply_matches m.expected_ack_of m.expected_opcode ev) _ s.1 in
      reached m.sender_filter ev.sender3 m.expected_ack_of m.expected_opcode ev r m s.0 p.0 ha
        (reply_key m.expected_ack_of m.expected_opcode) refl w

  gateway_only :
      (own theirs : Option String) (gw : String)
      → own ≡ some gw
      → gateway_matches own theirs ≡ true
      → theirs ≡ some gw
  gateway_only none theirs gw e h = absurd (cc e)
  gateway_only (some own) none gw e h = absurd (cc h)
  gateway_only (some own) (some theirs) gw e h =
      let same : own ≡ gw = cc in ap {B = Option String} some ((eq_iff theirs own).0 h ∙ same)

  -- A matcher that is bound to a gateway accepts no event that came over another gateway, or over a
  -- transport that gives no gateway.
  gateway_isolation :
      (m : PendingMatcher) (ev : Event) (gw : String)
      → m.gateway_id ≡ some gw
      → matches int_of_text m ev ≡ true
      → ev.gateway_id ≡ some gw
  unfolding matches
  gateway_isolation m ev gw e h =
      gateway_only m.gateway_id ev.gateway_id gw e
        (&&-parts (gateway_matches m.gateway_id ev.gateway_id) _ h).0
