-- ===== src/Channels/Validated.antt =====
-- What the self-check of the channel table gives to those who use the table.
use race_link_host.Prelude.{
  &&-parts, ||-parts, not-parts, ◌≡◌, refl, sym, ap, ◌⊎◌, inl, inr, Bool, true, false, some, List,
  [], ◌∷◌, map, arith, str_eq, String, Bool-cases, any_of, All, Within, ℤ, eqb_ℤ, Error,
  assertion_error, Result, ok, err, ◌>>◌, require,
}
use race_link_host.Channels.{
  Channel, list_channels, channel_with_id, get_channel, rf_dict, channel_rf_config, for_each,
  no_duplicates, in_band, all_separated, validate_region, validate_table,
}

pub >>-ok : (m k : Result (Unit {0})) → (m >> k) ≡ ok tt → (m ≡ ok tt) × (k ≡ ok tt)
>>-ok (ok tt) k h = (refl, h)
>>-ok (err e) k h = absurd (cc h)

pub require-ok : (b : Bool) (e : Error) → require b e ≡ ok tt → b ≡ true
require-ok true e h = refl
require-ok false e h = absurd (cc h)

for_each-All :
    {A : Type 0} (body : A → Result (Unit {0})) (xs : List A)
    → for_each body xs ≡ ok tt
    → All (λ x. body x ≡ ok tt) xs
for_each-All body [] h = tt
for_each-All body (x ∷ xs) h =
    let parts = >>-ok (body x) (for_each body xs) h in (parts.0, for_each-All body xs parts.1)

-- The checks of a region that the table's check includes.
pub list_channels-validated :
    (table : List (String × List Channel)) (region : String)
    → validate_table table ≡ ok tt
    → (list_channels table region ≡ []) ⊎ (validate_region (list_channels table region) ≡ ok tt)
unfolding validate_table list_channels
list_channels-validated [] region h = inl refl
list_channels-validated ((key, channels) ∷ table) region h =
    let parts = >>-ok (validate_region channels) (validate_table table) h in
    elim (Bool-cases (str_eq key region)) [
      | inl same ↦ inr (rw same parts.0)
      | inr other ↦ rw other (list_channels-validated table region parts.1)
    ]

module _ (channels : List Channel) (h : validate_region channels ≡ ok tt) where
  pub region_parts :
      (no_duplicates (map (λ ch. ch.id) channels) ≡ true) × (all_separated channels ≡ ok tt)
  unfolding validate_region
  region_parts =
      let outer = >>-ok _ (all_separated channels) h in
      let bands = >>-ok _ (for_each in_band channels) outer.0 in
      let ids =
        >>-ok _ (require (no_duplicates (map (λ ch. ch.id) channels)) assertion_error) bands.0 in
      (require-ok _ assertion_error ids.1, outer.1)

eqb_ℤ-self : (x : ℤ) → eqb_ℤ x x ≡ true
eqb_ℤ-self x = ground arith

other_id :
    (x : ℤ) (ch : Channel) (channels : List Channel)
    → any_of (eqb_ℤ x) (map (λ c. c.id) channels) ≡ false
    → Within ch channels
    → eqb_ℤ x ch.id ≡ false
other_id x ch [] h w = absurd w
other_id x ch (c ∷ channels) h (inl e) = rw e (||-parts _ _ h).0
other_id x ch (c ∷ channels) h (inr w) = other_id x ch channels (||-parts _ _ h).1 w

find-id :
    (ch : Channel) (channels : List Channel)
    → no_duplicates (map (λ c. c.id) channels) ≡ true
    → Within ch channels
    → channel_with_id channels ch.id ≡ some ch
unfolding channel_with_id
find-id ch [] h w = absurd w
find-id ch (c ∷ channels) h (inl e) =
    let self : eqb_ℤ c.id ch.id ≡ true = rw e (eqb_ℤ-self c.id) in rw self (ap some (sym e))
find-id ch (c ∷ channels) h (inr w) =
    let parts = &&-parts _ (no_duplicates (map (λ c. c.id) channels)) h in
    rw (other_id c.id ch channels (not-parts _ parts.0) w) (find-id ch channels parts.1 w)

-- In a table that passes the self-check, every channel of a region is found by its own id, and the
-- radio settings handed out for that id are its own.
get_channel-validated :
    (table : List (String × List Channel)) (region : String) (ch : Channel)
    → validate_table table ≡ ok tt
    → Within ch (list_channels table region)
    → (get_channel table region (some ch.id) ≡ some ch)
      × (channel_rf_config table region (some ch.id) ≡ some (rf_dict ch.rf))
unfolding get_channel channel_rf_config
get_channel-validated table region ch h w = elim (list_channels-validated table region h) [
  | inl empty ↦ absurd (rw empty at w)
  | inr valid ↦
      let found = find-id ch (list_channels table region) (region_parts _ valid).0 w in
      (found, rw found refl)
]
