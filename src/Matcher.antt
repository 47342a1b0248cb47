-- ===== src/Matcher.antt =====
-- racelink/services/pending_requests.py: matching replies to the requests that wait for them.
-- Times are whole milliseconds. The condition variable and the lock are not modelled: a call of the
-- registry is one step.
pub mod Buckets
pub mod Match
pub mod Consume
pub mod Lifecycle
pub mod Wait
use race_link_host.Prelude.{
  ℕ, zero, suc, ◌+◌, ◌-◌, ◌*◌, ◌/◌, ◌%◌, ◌≤◌, ◌<◌, ◌≡◌, refl, sym, ap, ◌∙◌, ◌≢◌, ◌↔◌, ◌⊎◌, inl, inr,
  Bool, true, false, not, ◌&&◌, ◌||◌, Option, none, some, List, [], ◌∷◌, ◌++◌, map, arith, str_eq,
  eq_iff, String, ltb, leb, ◌==◌, ==_iff, if◌then◌else◌, Bool-cases, Option-cases, get_or, is_some,
  length, take, drop, keep_if, any_of, all_of, length-append, length-map, length-keep_if, All, sum,
  sum-append, ℤ, pos, negsuc, pos_part, neg_part, sub_ℕ, ◌+ℤ◌, ◌*ℤ◌, ◌≤ℤ◌, leb_ℤ, eqb_ℤ, distance,
  mask, clamp, clamp_bounds, clamp_id, mask-byte-lt, Error, value_error, key_error, struct_error,
  index_error, assertion_error, Result, ok, err, ◌>>=◌, ◌>>◌, require, or_raise, map_ok,
  map_ok-eq-map, lower_eq,
}
use race_link_host.Struct.{Bytes}

-- A value of a parsed event: a number or a marker text.
pub data FieldValue : Type 0 where
  int_value : ℤ → FieldValue
  text_value : String → FieldValue

-- A parsed transport event; `none` is a key that is missing.
pub record Event : Type 0 where
  pub gateway_id : Option String
  pub sender3 : Option Bytes
  pub opc : Option ℤ
  pub ack_of : Option ℤ
  pub others : List (String × FieldValue)

-- `ev.get(key)`
abbrev pub get_field : String → List (String × FieldValue) → Option FieldValue
get_field key [] = none
get_field key ((k, v) ∷ rest) = if str_eq k key then some v else get_field key rest

-- `identity` stands for the object itself, which `list.remove` compares.
pub record PendingMatcher : Type 0 where
  pub identity : ℕ
  pub sender_filter : Option (List Bytes)
  pub expected_opcode : Option ℤ
  pub expected_ack_of : Option ℤ
  pub discriminator_field : Option String
  pub discriminator_value : Option FieldValue
  pub gateway_id : Option String
  pub expected_count : ℕ
  pub idle_timeout : ℕ
  pub max_timeout : ℕ
  pub collected : List Event
  pub last_match : Option ℕ
  pub registered : ℕ
  pub done_flag : Bool

unfoldable pub bytes_eq : Bytes → Bytes → Bool
bytes_eq [] [] = true
bytes_eq (a ∷ xs) (b ∷ ys) = a == b && bytes_eq xs ys
bytes_eq _ _ = false

abbrev pub opc_ack : ℕ
opc_ack = 126

-- `int(ev.get("opc", -1)) & 0x7F`
abbrev pub event_opc : Event → ℕ
event_opc ev = mask 128 (get_or ev.opc (negsuc 0))

abbrev gateway_matches : Option String → Option String → Bool
gateway_matches none ev_gw = true
gateway_matches (some gw) none = false
gateway_matches (some gw) (some ev_gw) = str_eq ev_gw gw

abbrev sender_matches : Option (List Bytes) → Option Bytes → Bool
sender_matches none s3 = true
sender_matches (some accepted) none = false
sender_matches (some accepted) (some s3) = any_of (λ s. bytes_eq s s3) accepted

abbrev reply_matches : Option ℤ → Option ℤ → Event → Bool
reply_matches (some ack) opcode ev =
    event_opc ev == opc_ack && eqb_ℤ (get_or ev.ack_of (negsuc 0)) ack
reply_matches none (some opcode) ev = eqb_ℤ (pos (event_opc ev)) opcode
reply_matches none none ev = true

-- `int(text)`, which raises for most texts, is a parameter.
module _ (int_of_text : String → Option ℤ) where
  abbrev int_of : FieldValue → Option ℤ
  int_of (int_value n) = some n
  int_of (text_value s) = int_of_text s

  abbrev pub value_matches : Option FieldValue → FieldValue → Bool
  value_matches (some (int_value n)) ev_val = elim (int_of ev_val) [
    | none ↦ false
    | some v ↦ eqb_ℤ v n
  ]
  value_matches (some (text_value s)) (text_value t) = str_eq t s
  value_matches (some (text_value s)) (int_value n) = false
  value_matches none ev_val = false

  abbrev pub discriminator_matches : Option String → Option FieldValue → Event → Bool
  discriminator_matches none value ev = true
  discriminator_matches (some key) value ev = elim (get_field key ev.others) [
    | none ↦ false
    | some ev_val ↦ value_matches value ev_val
  ]

  unfoldable pub matches : PendingMatcher → Event → Bool
  matches m ev =
      gateway_matches m.gateway_id ev.gateway_id
      && (sender_matches m.sender_filter ev.sender3
          && (reply_matches m.expected_ack_of m.expected_opcode ev
              && discriminator_matches m.discriminator_field m.discriminator_value ev))

pub done : PendingMatcher → Bool
done m = m.done_flag || leb m.expected_count (length m.collected)

abbrev pub Key : Type 0
Key = Bytes × ℕ

unfoldable pub key_eq : Key → Key → Bool
key_eq (s, k) (t, l) = bytes_eq s t && k == l

pub record Registry : Type 0 where
  pub unicast : List (Key × List PendingMatcher)
  pub broadcast : List PendingMatcher

abbrev pub empty : Registry
empty = record { unicast = []; broadcast = [] }

-- The opcode half of the fast-bucket key: the acknowledged opcode if there is one.
abbrev pub reply_key : Option ℤ → Option ℤ → Option ℤ
reply_key (some ack) opcode = some ack
reply_key none opcode = opcode

abbrev pub key_for : Option (List Bytes) → Option ℤ → Option Key
key_for (some (sender ∷ [])) (some key) = some (sender, mask 128 key)
key_for _ _ = none

unfoldable pub unicast_key : PendingMatcher → Option Key
unicast_key m = key_for m.sender_filter (reply_key m.expected_ack_of m.expected_opcode)

-- `self._unicast.get(key, ())`
unfoldable pub bucket : Key → List (Key × List PendingMatcher) → List PendingMatcher
bucket key [] = []
bucket key ((k, ms) ∷ rest) = if key_eq k key then ms else bucket key rest

-- `self._unicast.setdefault(key, []).append(m)`
unfoldable pub add :
    Key → PendingMatcher → List (Key × List PendingMatcher) → List (Key × List PendingMatcher)
add key m [] = (key, m ∷ []) ∷ []
add key m ((k, ms) ∷ rest) =
    if key_eq k key then (k, ms ++ m ∷ []) ∷ rest else (k, ms) ∷ add key m rest

abbrev pub enter : Option Key → PendingMatcher → Registry → Registry
enter (some key) m r = record r { unicast = add key m r.unicast }
enter none m r = record r { broadcast = r.broadcast ++ m ∷ [] }

unfoldable pub register : PendingMatcher → Registry → Result Registry
register m r =
    if is_some m.sender_filter && not (is_some m.gateway_id)
    then err value_error
    else ok (enter (unicast_key m) m r)

-- `bucket.remove(m)`, with the ValueError of an absent matcher swallowed.
unfoldable pub remove : ℕ → List PendingMatcher → List PendingMatcher
remove i [] = []
remove i (m ∷ ms) = if m.identity == i then ms else m ∷ remove i ms

abbrev pub put_back :
    Key → List PendingMatcher → List (Key × List PendingMatcher) → List (Key × List PendingMatcher)
put_back k [] rest = rest
put_back k (m ∷ ms) rest = (k, m ∷ ms) ∷ rest

-- The bucket without the matcher. One that became empty is popped; one that was empty is left alone.
abbrev pub take_out :
    Key
    → ℕ
    → List PendingMatcher
    → List (Key × List PendingMatcher)
    → List (Key × List PendingMatcher)
take_out k i [] rest = (k, []) ∷ rest
take_out k i (m ∷ ms) rest = put_back k (remove i (m ∷ ms)) rest

unfoldable pub drop_from :
    Key → ℕ → List (Key × List PendingMatcher) → List (Key × List PendingMatcher)
drop_from key i [] = []
drop_from key i ((k, ms) ∷ rest) =
    if key_eq k key then take_out k i ms rest else (k, ms) ∷ drop_from key i rest

abbrev pub leave : Option Key → ℕ → Registry → Registry
leave (some key) i r = record r { unicast = drop_from key i r.unicast }
leave none i r = record r { broadcast = remove i r.broadcast }

unfoldable pub cancel : PendingMatcher → Registry → Registry
cancel m r = leave (unicast_key m) m.identity r

-- The ACK path: the bucket of the opcode that the event acknowledges.
abbrev pub acked_bucket : Option ℤ → Bytes → Event → Registry → List PendingMatcher
acked_bucket none s3 ev r = []
acked_bucket (some ack) s3 ev r =
    if event_opc ev == opc_ack then bucket (s3, mask 128 ack) r.unicast else []

abbrev pub from_sender : Option Bytes → Event → Registry → List PendingMatcher
from_sender none ev r = []
from_sender (some s3) ev r = acked_bucket ev.ack_of s3 ev r ++ bucket (s3, event_opc ev) r.unicast

unfoldable pub candidates : Event → Registry → List PendingMatcher
candidates ev r = from_sender ev.sender3 ev r ++ r.broadcast

-- What a hit writes into the matcher.
unfoldable pub record_hit : ℕ → Event → PendingMatcher → PendingMatcher
record_hit now ev m =
    let collected' = m.collected ++ ev ∷ [] in
    record m {
      collected = collected';
      last_match = some now;
      done_flag = m.done_flag || leb m.expected_count (length collected');
    }

unfoldable pub replace : PendingMatcher → List PendingMatcher → List PendingMatcher
replace m [] = []
replace m (x ∷ xs) = (if x.identity == m.identity then m else x) ∷ replace m xs

unfoldable pub replace_in :
    PendingMatcher → List (Key × List PendingMatcher) → List (Key × List PendingMatcher)
replace_in m [] = []
replace_in m ((k, ms) ∷ rest) = (k, replace m ms) ∷ replace_in m rest

-- The object is shared, so every list that holds it sees the change.
unfoldable pub write_back : PendingMatcher → Registry → Registry
write_back m r = record { unicast = replace_in m r.unicast; broadcast = replace m r.broadcast }

abbrev pub count_in : List (Key × List PendingMatcher) → ℕ
count_in [] = 0
count_in ((k, ms) ∷ rest) = length ms + count_in rest

unfoldable pub pending_count : Registry → ℕ
pending_count r = count_in r.unicast + length r.broadcast

module _ (int_of_text : String → Option ℤ) where
  unfoldable pub first_match : Event → List PendingMatcher → Option PendingMatcher
  first_match ev [] = none
  first_match ev (m ∷ ms) = if matches int_of_text m ev then some m else first_match ev ms

  abbrev pub consume :
      ℕ → Event → Registry → Option PendingMatcher → Option PendingMatcher × Registry
  consume now ev r none = (none, r)
  consume now ev r (some m) = let hit = record_hit now ev m in (some hit, write_back hit r)

  unfoldable pub try_match : ℕ → Event → Registry → Option PendingMatcher × Registry
  try_match now ev r = consume now ev r (first_match ev (candidates ev r))

-- Why `wait` returns.
pub data Reason : Type 0 where
  count idle max_timeout no_reply : Reason

-- One turn of the loop in `wait`: return, or sleep for so long at most.
pub data Turn : Type 0 where
  return : Reason → Turn
  sleep : ℕ → Turn

abbrev pub at_deadline : Option ℕ → Reason
at_deadline none = no_reply
at_deadline (some ts) = max_timeout

abbrev pub before_deadline : Option ℕ → ℕ → ℕ → ℕ → Turn
before_deadline none idle_timeout deadline now = sleep (deadline - now)
before_deadline (some ts) zero deadline now = sleep (deadline - now)
before_deadline (some ts) (suc d) deadline now =
    let idle_deadline = ts + suc d in
    let effective = if ltb deadline idle_deadline then deadline else idle_deadline in
    if leb effective now then return idle else sleep (effective - now)

unfoldable pub wait_turn : ℕ → ℕ → PendingMatcher → Turn
wait_turn anchor now m =
    if done m
    then return count
    else if leb (anchor + m.max_timeout) now
    then return (at_deadline m.last_match)
    else before_deadline m.last_match m.idle_timeout (anchor + m.max_timeout) now

-- The loop of `wait`: the clock and the matcher at each wake-up, until a turn returns. `none` says
-- that these wake-ups did not end it.
unfoldable pub wait : ℕ → List (ℕ × PendingMatcher) → Option Reason
wait anchor [] = none
wait anchor ((now, m) ∷ later) = elim (wait_turn anchor now m) [
  | return reason ↦ some reason
  | sleep d ↦ wait anchor later
]
