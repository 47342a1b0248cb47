-- ===== src/Matcher/Consume.antt =====
-- `try_match` against the set of registered matchers: the buckets lose nothing and invent nothing.
use race_link_host.Prelude.{
  ℕ, ◌≤◌, ◌≡◌, ◌≢◌, ◌↔◌, refl, sym, ◌∙◌, arith, ==_iff, if-true, if-false, Bool-cases, leb, length,
  ◌||◌, List, ◌∷◌, ◌++◌, ◌⊎◌, inl, inr, Bool, true, false, Option, none, some, [], String, ◌==◌,
  if◌then◌else◌, Option-cases, Within, Within-append, ℤ, mask,
}
use race_link_host.Struct.{Bytes}
use race_link_host.Matcher.{
  Event, PendingMatcher, opc_ack, event_opc, matches, Key, Registry, bucket, from_sender,
  acked_bucket, candidates, record_hit, replace, replace_in, write_back, first_match, try_match,
}
use race_link_host.Matcher.Buckets.{IsRegistered, IsFiled}
use race_link_host.Matcher.Match.{first_match-some, first_match_sound, AckIsOpcode, candidate}

module _ (ev : Event) (r : Registry) (x : PendingMatcher) (f : IsFiled r) where
  in_bucket : (k : Key) → Within x (bucket k r.unicast) → IsRegistered x r
  in_bucket k h = rw (f.fast k x h) h

  in_acked : (ack : Option ℤ) (s : Bytes) → Within x (acked_bucket ack s ev r) → IsRegistered x r
  in_acked none s h = absurd h
  in_acked (some a) s h = choice (event_opc ev == opc_ack) h
    where
      choice :
          (b : Bool)
          → Within x (if b then bucket (s, mask 128 a) r.unicast else [])
          → IsRegistered x r
      choice true k = in_bucket (s, mask 128 a) k
      choice false k = absurd k

  from_sender-IsRegistered : (s3 : Option Bytes) → Within x (from_sender s3 ev r) → IsRegistered x r
  from_sender-IsRegistered none h = absurd h
  from_sender-IsRegistered (some s) h =
      elim (Within-append x (acked_bucket ev.ack_of s ev r) (bucket (s, event_opc ev) r.unicast)
        h) [ inl acked ↦ in_acked ev.ack_of s acked | inr own ↦ in_bucket (s, event_opc ev) own ]

  pub candidates-IsRegistered : Within x (candidates ev r) → IsRegistered x r
  unfolding candidates
  candidates-IsRegistered w = elim (Within-append x (from_sender ev.sender3 ev r) r.broadcast w) [
    | inl sent ↦ from_sender-IsRegistered ev.sender3 sent
    | inr slow ↦ rw (f.slow x slow) slow
  ]

-- The second matcher is the first after it has taken the event.
abbrev pub HasTaken : ℕ → Event → PendingMatcher → PendingMatcher → Type 0
HasTaken now ev x hit =
    (hit ≡ record x {
      collected = x.collected ++ ev ∷ [];
      last_match = some now;
      done_flag = hit.done_flag;
    })
    × ((hit.done_flag ≡ true)
        ↔ ((x.done_flag ≡ true) ⊎ (x.expected_count ≤ length (x.collected ++ ev ∷ []))))

-- In each place the matcher with its identity has been put, and no other has changed.
abbrev pub HasReplaced : PendingMatcher → List PendingMatcher → List PendingMatcher → Type 0
HasReplaced m [] [] = Unit
HasReplaced m (x ∷ xs) (y ∷ ys) =
    (((x.identity ≡ m.identity) × (y ≡ m)) ⊎ ((x.identity ≢ m.identity) × (y ≡ x)))
    × HasReplaced m xs ys
HasReplaced m _ _ = ⊥

abbrev pub HaveReplaced :
    PendingMatcher → List (Key × List PendingMatcher) → List (Key × List PendingMatcher) → Type 0
HaveReplaced m [] [] = Unit
HaveReplaced m ((j, xs) ∷ before) ((k, ys) ∷ after) =
    (k ≡ j) × HasReplaced m xs ys × HaveReplaced m before after
HaveReplaced m _ _ = ⊥

replace-HasReplaced :
    (m : PendingMatcher) (xs : List PendingMatcher) → HasReplaced m xs (replace m xs)
unfolding replace
replace-HasReplaced m [] = tt
replace-HasReplaced m (x ∷ xs) = (
  elim (Bool-cases (x.identity == m.identity)) [
    | inl same ↦
        inl ((==_iff x.identity m.identity).0 same, if-true (x.identity == m.identity) m x same)
    | inr other ↦ inr (
      λ e. cc (sym other ∙ (==_iff x.identity m.identity).1 e),
      if-false (x.identity == m.identity) m x other,
    )
  ],
  replace-HasReplaced m xs,
)

replace_in-HaveReplaced :
    (m : PendingMatcher) (d : List (Key × List PendingMatcher)) → HaveReplaced m d (replace_in m d)
unfolding replace_in
replace_in-HaveReplaced m [] = tt
replace_in-HaveReplaced m ((k, ms) ∷ d) =
    (refl, replace-HasReplaced m ms, replace_in-HaveReplaced m d)

either_iff : (a : Bool) (n k : ℕ) → ((a || leb n k) ≡ true) ↔ ((a ≡ true) ⊎ (n ≤ k))
either_iff true n k = (λ h. inl refl, λ h. refl)
either_iff false n k =
    (λ h. inr (ground arith), λ h. elim h [ inl e ↦ absurd (cc e) | inr l ↦ ground arith ])

record_hit-HasTaken :
    (now : ℕ) (ev : Event) (x : PendingMatcher) → HasTaken now ev x (record_hit now ev x)
unfolding record_hit
record_hit-HasTaken now ev x =
    (refl, either_iff x.done_flag x.expected_count (length (x.collected ++ ev ∷ [])))

module _ (int_of_text : String → Option ℤ) (now : ℕ) (ev : Event) (r : Registry)
    (f : IsFiled r) where
  -- In a registry where every matcher stands in the list of its key, if a registered matcher accepts
  -- the event, and the opcode whose ACK it expects, if any, is not negative, then `try_match` hits a
  -- registered matcher that accepts the event, and records the event there.
  pub reply_is_matched :
      (m : PendingMatcher)
      → IsRegistered m r
      → AckIsOpcode m.expected_ack_of
      → matches int_of_text m ev ≡ true
      → (x : PendingMatcher) × IsRegistered x r
        × (matches int_of_text x ev ≡ true)
        × (try_match int_of_text now ev r
            ≡ (some (record_hit now ev x), write_back (record_hit now ev x) r))
  unfolding try_match
  reply_is_matched m w ha h =
      let found =
        first_match-some int_of_text ev (candidates ev r) m (candidate int_of_text ev r m w ha h)
          h in
      let sound = first_match_sound int_of_text ev (candidates ev r) found.0 found.1 in
      (found.0, candidates-IsRegistered ev r found.0 f sound.1, sound.0, rw found.1)

  -- In a registry where every matcher stands in the list of its key, a call of `try_match` hits nothing
  -- and leaves the registry as it is; or it returns a registered matcher that accepts the event, which
  -- has collected the event, after those before it, and has the time of the call, is done if it was or
  -- if it has collected as many events as it expects, and is else unchanged. Then this matcher stands,
  -- in every list, in the place of each matcher of its identity, and every other matcher is unchanged.
  pub hit-IsRegistered :
      (try_match int_of_text now ev r ≡ (none, r))
      ⊎ ((x : PendingMatcher) × (hit : PendingMatcher) × (r' : Registry) × (try_match int_of_text
              now ev r
            ≡ (some hit, r'))
          × IsRegistered x r
          × (matches int_of_text x ev ≡ true)
          × HasTaken now ev x hit
          × HaveReplaced hit r.unicast r'.unicast
          × HasReplaced hit r.broadcast r'.broadcast)
  unfolding try_match write_back
  hit-IsRegistered = elim (Option-cases (first_match int_of_text ev (candidates ev r))) [
    | inl miss ↦ inl (rw miss)
    | inr (x, found) ↦
        let sound = first_match_sound int_of_text ev (candidates ev r) x found in
        let hit = record_hit now ev x in
        inr (
          x,
          hit,
          write_back hit r,
          rw found,
          candidates-IsRegistered ev r x f sound.1,
          sound.0,
          record_hit-HasTaken now ev x,
          replace_in-HaveReplaced hit r.unicast,
          replace-HasReplaced hit r.broadcast,
        )
  ]
