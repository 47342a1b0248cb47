-- ===== src/Matcher/Lifecycle.antt =====
-- Registering and cancelling.
use race_link_host.Prelude.{
  ℕ, suc, ◌≡◌, refl, ap, ◌∙◌, ◌≢◌, ◌⊎◌, inl, inr, Bool, true, false, not, ◌&&◌, Option, none, some,
  List, [], ◌∷◌, ◌++◌, arith, Bool-cases, is_some, ◌↔◌, Within, Within-append, if◌then◌else◌,
  length-append, value_error, ok, err,
}
use race_link_host.Matcher.{
  PendingMatcher, Key, key_eq, Registry, bucket, unicast_key, add, enter, register, remove,
  put_back, take_out, drop_from, leave, cancel, pending_count,
}
use race_link_host.Matcher.Buckets.{
  key_eq_iff, count-add, bucket-add, home, IsRegistered, IsFiled, home-enter, entered,
  enter-IsFiled,
}

-- No bucket is kept empty.
abbrev pub AreFilled : List (Key × List PendingMatcher) → Type 0
AreFilled [] = Unit
AreFilled ((k, ms) ∷ rest) = (ms ≢ []) × AreFilled rest

-- No matcher of the list is this object.
abbrev pub IsAbsent : ℕ → List PendingMatcher → Type 0
IsAbsent i [] = Unit
IsAbsent i (m ∷ ms) = (m.identity ≢ i) × IsAbsent i ms

abbrev pub IsAbsentIn : ℕ → List (Key × List PendingMatcher) → Type 0
IsAbsentIn i [] = Unit
IsAbsentIn i ((k, ms) ∷ rest) = IsAbsent i ms × IsAbsentIn i rest

remove-append :
    (m : PendingMatcher) (ms : List PendingMatcher)
    → IsAbsent m.identity ms
    → remove m.identity (ms ++ m ∷ []) ≡ ms
unfolding remove
remove-append m [] h = ground arith
remove-append m (x ∷ ms) h = ground (arith, remove-append m ms h.1)

put_back-filled :
    (k : Key) (ms : List PendingMatcher) (rest : List (Key × List PendingMatcher))
    → ms ≢ []
    → put_back k ms rest ≡ (k, ms) ∷ rest
put_back-filled k [] rest h = absurd (h refl)
put_back-filled k (m ∷ ms) rest h = refl

take_out-append :
    (k : Key) (i : ℕ) (m : PendingMatcher) (ms : List PendingMatcher)
    (rest : List (Key × List PendingMatcher))
    → take_out k i (ms ++ m ∷ []) rest ≡ put_back k (remove i (ms ++ m ∷ [])) rest
take_out-append k i m [] rest = refl
take_out-append k i m (x ∷ ms) rest = refl

drop_from-add :
    (k : Key) (m : PendingMatcher) (d : List (Key × List PendingMatcher))
    → AreFilled d
    → IsAbsentIn m.identity d
    → drop_from k m.identity (add k m d) ≡ d
unfolding drop_from add remove
drop_from-add k m [] h a = rw ((key_eq_iff k k).1 refl) (ground arith)
drop_from-add k m ((j, ms) ∷ d) h a = elim (Bool-cases (key_eq j k)) [
  | inl same ↦
      rw (same, same)
        (take_out-append j m.identity m ms d
          ∙ ap (λ l. put_back j l d) (remove-append m ms a.0)
          ∙ put_back-filled j ms d h.0)
  | inr other ↦ rw (other, other) (ap (λ l. (j, ms) ∷ l) (drop_from-add k m d h.1 a.1))
]

leave-enter :
    (k : Option Key) (m : PendingMatcher) (r : Registry)
    → AreFilled r.unicast
    → IsAbsentIn m.identity r.unicast
    → IsAbsent m.identity r.broadcast
    → leave k m.identity (enter k m r) ≡ r
leave-enter (some k) m r h a b =
    ap (λ d. record r { unicast = d }) (drop_from-add k m r.unicast h a)
leave-enter none m r h a b = ap (λ d. record r { broadcast = d }) (remove-append m r.broadcast b)

-- A concrete sender without a gateway.
abbrev pub is_unrouted : PendingMatcher → Bool
is_unrouted m = is_some m.sender_filter && not (is_some m.gateway_id)

register-eq-ok :
    (m : PendingMatcher) (r r' : Registry)
    → register m r ≡ ok r'
    → (is_unrouted m ≡ false) × (r' ≡ enter (unicast_key m) m r)
unfolding register
register-eq-ok m r r' h = elim (Bool-cases (is_unrouted m)) [
  | inl bad ↦ absurd (cc (rw bad at h))
  | inr good ↦ (good, cc (rw good at h))
]

-- In a registry without empty buckets, a matcher that was just registered, and whose object was not
-- registered before, is cancelled without a trace: the registry is the one before, down to the
-- buckets.
pub cancel-register :
    (m : PendingMatcher) (r r' : Registry)
    → AreFilled r.unicast
    → IsAbsentIn m.identity r.unicast
    → IsAbsent m.identity r.broadcast
    → register m r ≡ ok r'
    → cancel m r' ≡ r
unfolding cancel
cancel-register m r r' h a b e =
    rw (register-eq-ok m r r' e).1 (leave-enter (unicast_key m) m r h a b)

count-enter :
    (k : Option Key) (m : PendingMatcher) (r : Registry)
    → pending_count (enter k m r) ≡ suc (pending_count r)
unfolding pending_count
count-enter (some k) m r = omega (arith, count-add k m r.unicast)
count-enter none m r = omega (arith, length-append r.broadcast (m ∷ []))

-- After registration each list has what it had, and the list of the matcher's key has the matcher.
enter-home :
    (j k : Option Key) (m x : PendingMatcher) (r : Registry)
    → Within x (home j (enter k m r))
    → (x ≡ m) ⊎ Within x (home j r)
enter-home none none m x r w = elim (Within-append x r.broadcast (m ∷ []) w) [
  | inl old ↦ inr old
  | inr (inl same) ↦ inl same
  | inr (inr no_more) ↦ absurd no_more
]
enter-home none (some k) m x r w = inr w
enter-home (some j) none m x r w = inr w
enter-home (some j) (some k) m x r w = choice (key_eq k j) (rw (bucket-add j k m r.unicast) at w)
  where
    choice :
        (b : Bool)
        → Within x (if b then bucket j r.unicast ++ m ∷ [] else bucket j r.unicast)
        → (x ≡ m) ⊎ Within x (bucket j r.unicast)
    choice false v = inr v
    choice true v = elim (Within-append x (bucket j r.unicast) (m ∷ []) v) [
      | inl old ↦ inr old
      | inr (inl same) ↦ inl same
      | inr (inr no_more) ↦ absurd no_more
    ]

enter-IsRegistered :
    (m x : PendingMatcher) (r : Registry)
    → IsRegistered x (enter (unicast_key m) m r) ↔ ((x ≡ m) ⊎ IsRegistered x r)
enter-IsRegistered m x r = (
  λ w. enter-home (unicast_key x) (unicast_key m) m x r w,
  λ h. elim h [
    | inl same ↦ rw same (entered (unicast_key m) m r)
    | inr old ↦ home-enter (unicast_key x) (unicast_key m) m x r old
  ],
)

-- In a registry where every matcher stands in the list of its key, the empty one included:
-- registration of a matcher with a concrete sender and no gateway raises ValueError; any other is
-- accepted, and then the registered matchers are exactly it and those registered before, every matcher
-- stands in the list of its key, and one more is pending.
pub register_lem :
    (m x : PendingMatcher) (r : Registry)
    → IsFiled r
    → ((is_unrouted m ≡ true) × (register m r ≡ err value_error))
      ⊎ ((is_unrouted m ≡ false)
          × ((r' : Registry) × (register m r ≡ ok r')
              × (IsRegistered x r' ↔ ((x ≡ m) ⊎ IsRegistered x r))
              × IsFiled r'
              × (pending_count r' ≡ suc (pending_count r))))
unfolding register
register_lem m x r f = elim (Bool-cases (is_unrouted m)) [
  | inl bad ↦ inl (bad, rw bad)
  | inr good ↦
      let k = unicast_key m in
      inr (
        good,
        (
          enter k m r,
          rw good,
          enter-IsRegistered m x r,
          enter-IsFiled k m r f refl,
          count-enter k m r,
        ),
      )
]
