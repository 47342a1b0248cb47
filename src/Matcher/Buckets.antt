-- ===== src/Matcher/Buckets.antt =====
-- The laws of the bucket dictionary, and where a matcher is kept.
use race_link_host.Prelude.{
  suc, ◌≡◌, refl, ◌↔◌, inl, inr, Bool, true, false, Option, none, some, List, [], ◌∷◌, ◌++◌, arith,
  if◌then◌else◌, length-append, Within, Within-left, Within-right, Within-append,
}
use race_link_host.Struct.{Bytes}
use race_link_host.Matcher.{
  PendingMatcher, bytes_eq, Key, key_eq, Registry, empty, unicast_key, bucket, add, enter, count_in,
}

pub bytes_eq_iff : (xs ys : Bytes) → (bytes_eq xs ys ≡ true) ↔ (xs ≡ ys)
unfolding bytes_eq
bytes_eq_iff [] [] = (λ h. refl, λ h. refl)
bytes_eq_iff [] (y ∷ ys) = (λ h. cc h, λ h. absurd (cc h))
bytes_eq_iff (x ∷ xs) [] = (λ h. cc h, λ h. absurd (cc h))
bytes_eq_iff (x ∷ xs) (y ∷ ys) =
    (λ h. ground (arith, (bytes_eq_iff xs ys).0), λ h. ground (arith, (bytes_eq_iff xs ys).1))

pub key_eq_iff : (j k : Key) → (key_eq j k ≡ true) ↔ (j ≡ k)
unfolding key_eq
key_eq_iff (s, j) (t, k) =
    (λ h. ground (arith, (bytes_eq_iff s t).0), λ h. ground (arith, (bytes_eq_iff s t).1))

pub bucket-add :
    (j k : Key) (m : PendingMatcher) (d : List (Key × List PendingMatcher))
    → bucket j (add k m d) ≡ (if key_eq k j then bucket j d ++ m ∷ [] else bucket j d)
unfolding bucket add
bucket-add j k m [] = refl
bucket-add j k m ((i, ms) ∷ d) =
    ground (arith, bucket-add j k m d, key_eq_iff i k, key_eq_iff i j, key_eq_iff k j)

pub count-add :
    (k : Key) (m : PendingMatcher) (d : List (Key × List PendingMatcher))
    → count_in (add k m d) ≡ suc (count_in d)
unfolding add
count-add k m [] = omega arith
count-add k m ((i, ms) ∷ d) = ground (arith, count-add k m d, length-append ms (m ∷ []))

-- The list in which a matcher with this key is kept.
abbrev pub home : Option Key → Registry → List PendingMatcher
home (some key) r = bucket key r.unicast
home none r = r.broadcast

-- The matcher is registered, in the list where `cancel` looks for it.
abbrev pub IsRegistered : PendingMatcher → Registry → Type 0
IsRegistered m r = Within m (home (unicast_key m) r)

-- Every matcher stands in the list of its key.
pub record IsFiled (r : Registry) : Type 0 where
  pub fast : (k : Key) (m : PendingMatcher) → Within m (bucket k r.unicast) → unicast_key m ≡ some k
  pub slow : (m : PendingMatcher) → Within m r.broadcast → unicast_key m ≡ none

pub IsFiled-empty : IsFiled empty
unfolding bucket
IsFiled-empty = record { fast = λ k m h. absurd h; slow = λ m h. absurd h }

pub home-enter :
    (j : Option Key) (k : Option Key) (m x : PendingMatcher) (r : Registry)
    → Within x (home j r)
    → Within x (home j (enter k m r))
home-enter none none m x r h = Within-left x r.broadcast (m ∷ []) h
home-enter none (some k) m x r h = h
home-enter (some j) none m x r h = h
home-enter (some j) (some k) m x r h = rw (bucket-add j k m r.unicast) (choice (key_eq k j))
  where
    choice : (b : Bool) → Within x (if b then bucket j r.unicast ++ m ∷ [] else bucket j r.unicast)
    choice true = Within-left x (bucket j r.unicast) (m ∷ []) h
    choice false = h

pub entered : (k : Option Key) (m : PendingMatcher) (r : Registry) → Within m (home k (enter k m r))
entered none m r = Within-right m r.broadcast (m ∷ []) (inl refl)
entered (some k) m r =
    rw (bucket-add k k m r.unicast, (key_eq_iff k k).1 refl)
      (Within-right m (bucket k r.unicast) (m ∷ []) (inl refl))

bucket-from_add :
    (j k : Key) (m x : PendingMatcher) (r : Registry)
    → IsFiled r
    → unicast_key m ≡ some k
    → Within x (bucket j (add k m r.unicast))
    → unicast_key x ≡ some j
bucket-from_add j k m x r f e w = choice (key_eq k j) refl (rw (bucket-add j k m r.unicast) at w)
  where
    last : key_eq k j ≡ true → Within x (m ∷ []) → unicast_key x ≡ some j
    last h (inl same) = rw (same, e, (key_eq_iff k j).0 h)
    last h (inr no_more) = absurd no_more

    choice :
        (b : Bool)
        → key_eq k j ≡ b
        → Within x (if b then bucket j r.unicast ++ m ∷ [] else bucket j r.unicast)
        → unicast_key x ≡ some j
    choice true h v = elim (Within-append x (bucket j r.unicast) (m ∷ []) v) [
      | inl old ↦ f.fast j x old
      | inr new ↦ last h new
    ]
    choice false h v = f.fast j x v

pub enter-IsFiled :
    (k : Option Key) (m : PendingMatcher) (r : Registry)
    → IsFiled r
    → unicast_key m ≡ k
    → IsFiled (enter k m r)
enter-IsFiled (some k) m r f e = record {
  fast = λ j x w. bucket-from_add j k m x r f e w;
  slow = f.slow;
}
enter-IsFiled none m r f e = record {
  fast = f.fast;
  slow = λ x w. elim (Within-append x r.broadcast (m ∷ []) w) [
    | inl old ↦ f.slow x old
    | inr new ↦ last x new
  ];
}
  where
    last : (x : PendingMatcher) → Within x (m ∷ []) → unicast_key x ≡ none
    last x (inl same) = rw (same, e)
    last x (inr no_more) = absurd no_more
