-- ===== src/Protocol/Codec.antt =====
-- racelink/protocol/codec.py: parse_reply_event, which decodes the replies of nodes.
pub mod Total
use race_link_host.Prelude.{
  ℕ, zero, suc, ◌+◌, ◌-◌, ◌*◌, ◌/◌, ◌%◌, ◌≤◌, ◌<◌, ◌≡◌, refl, sym, ap, ◌∙◌, ◌≢◌, ◌↔◌, ◌⊎◌, inl, inr,
  Bool, true, false, not, ◌&&◌, ◌||◌, Option, none, some, List, [], ◌∷◌, ◌++◌, map, arith, str_eq,
  eq_iff, String, ltb, leb, ◌==◌, ==_iff, lt→leb_false, if◌then◌else◌, Bool-cases, Option-cases,
  get_or, is_some, length, take, drop, keep_if, any_of, all_of, length-append, length-map,
  length-keep_if, All, Within, Within-left, Within-right, Within-append, append-eq-nil, sum,
  sum-append, ℤ, pos, negsuc, pos_part, neg_part, sub_ℕ, ◌+ℤ◌, ◌*ℤ◌, ◌≤ℤ◌, leb_ℤ, eqb_ℤ, distance,
  mask, clamp, clamp_bounds, clamp_id, mask-byte-lt, Error, value_error, key_error, struct_error,
  index_error, assertion_error, Result, ok, err, ◌>>=◌, ◌>>◌, require, or_raise, map_ok,
  map_ok-eq-map, lower_eq,
}
use race_link_host.Struct.{Bytes, Format, u8, i8, u16, unpack}
use race_link_host.Protocol.RfConfig.{RfConfig, unpack_rf_config_body}

-- The fields of a STATUS reply.
pub record Status : Type 0 where
  pub status_flags : ℤ
  pub config_byte : ℤ
  pub effect_id : ℤ
  pub brightness : ℤ
  pub vbat_mv : ℤ
  pub node_rssi : ℤ
  pub node_snr : ℤ

-- The keys that a reply adds to the event: `raw_reply` is a name with the undecoded body.
pub data Reply : Type 0 where
  identify_reply : ℕ → ℕ → ℕ → Bytes → Reply
  status_reply : Status → Reply
  config_reply : ℕ → ℕ → ℕ → ℕ → ℕ → Reply
  rf_config_reply : RfConfig → Reply
  ack_reply : ℕ → ℕ → Option ℕ → Reply
  raw_reply : String → Bytes → Reply

pub record ReplyEvent : Type 0 where
  pub type_byte : ℕ
  pub dir : ℕ
  pub opc : ℕ
  pub sender3 : Bytes
  pub receiver3 : Bytes
  pub host_rssi : ℤ
  pub host_snr : ℤ
  pub timestamp : ℕ
  pub reply : Reply

-- `data[7:-3]`
abbrev pub body_of_frame : Bytes → Bytes
body_of_frame frame = drop 7 (take (length frame - 3) frame)

unfoldable pub identify_of : Bytes → Reply
identify_of (version ∷ caps ∷ group ∷ mac6) =
    if length mac6 == 6
    then identify_reply version caps group mac6
    else raw_reply "IDENTIFY_REPLY" (version ∷ caps ∷ group ∷ mac6)
identify_of body = raw_reply "IDENTIFY_REPLY" body

-- The tuples that the two formats unpack to; another count raises ValueError.
abbrev pub status_with_config : List ℤ → Result Reply
status_with_config (a ∷ b ∷ c ∷ d ∷ e ∷ f ∷ g ∷ []) = ok (
    status_reply (record {
      status_flags = a;
      config_byte = b;
      effect_id = c;
      brightness = d;
      vbat_mv = e;
      node_rssi = f;
      node_snr = g;
    }))
status_with_config _ = err value_error

abbrev pub status_without_config : List ℤ → Result Reply
status_without_config (a ∷ c ∷ d ∷ e ∷ f ∷ g ∷ []) = ok (
    status_reply (record {
      status_flags = a;
      config_byte = pos 0;
      effect_id = c;
      brightness = d;
      vbat_mv = e;
      node_rssi = f;
      node_snr = g;
    }))
status_without_config _ = err value_error

abbrev pub long_status : List Format
long_status = u8 ∷ u8 ∷ u8 ∷ u8 ∷ u16 ∷ i8 ∷ i8 ∷ []

abbrev pub short_status : List Format
short_status = u8 ∷ u8 ∷ u8 ∷ u16 ∷ i8 ∷ i8 ∷ []

unfoldable pub status_of : Bytes → Result Reply
status_of body =
    if length body == 8
    then unpack long_status body >>= status_with_config
    else if length body == 7
    then unpack short_status body >>= status_without_config
    else ok (raw_reply "STATUS_REPLY" body)

unfoldable pub config_of : Bytes → Reply
config_of (option ∷ data0 ∷ data1 ∷ data2 ∷ data3 ∷ []) =
    config_reply option data0 data1 data2 data3
config_of body = raw_reply "GET_CONFIG_REPLY" body

-- `except struct.error`
abbrev pub catch_struct_error : Bytes → Result RfConfig → Result Reply
catch_struct_error body (ok rf_config) = ok (rf_config_reply rf_config)
catch_struct_error body (err struct_error) = ok (raw_reply "GET_RF_CONFIG_REPLY" body)
catch_struct_error body (err problem) = err problem

unfoldable pub rf_config_reply_of : Bytes → Result Reply
rf_config_reply_of body =
    if length body == 12
    then catch_struct_error body (unpack_rf_config_body body)
    else ok (raw_reply "GET_RF_CONFIG_REPLY" body)

unfoldable pub ack_of_body : Bytes → Reply
ack_of_body (ack_of ∷ status ∷ []) = ack_reply (ack_of % 128) status none
ack_of_body (ack_of ∷ status ∷ seq ∷ rest) = ack_reply (ack_of % 128) status (some seq)
ack_of_body body = raw_reply "ACK" body

-- `rules.opcode_name`, a look-up in the generated rule table, is a parameter.
module _ (opcode_name : ℕ → String) where
  unfoldable pub reply_of : ℕ → Bytes → Result Reply
  reply_of opc body =
      if opc == 1
      then ok (identify_of body)
      else if opc == 3
      then status_of body
      else if opc == 10
      then ok (config_of body)
      else if opc == 14
      then rf_config_reply_of body
      else if opc == 126
      then ok (ack_of_body body)
      else ok (raw_reply (opcode_name opc) body)

  unfoldable pub parse_reply_event : ℕ → Bytes → ℕ → ℤ → ℤ → Result ReplyEvent
  parse_reply_event type_byte frame timestamp host_rssi host_snr = do
    reply ← reply_of (type_byte % 128) (body_of_frame frame)
    ok (record {
      type_byte = type_byte;
      dir = type_byte / 128 % 2 * 128;
      opc = type_byte % 128;
      sender3 = take 3 frame;
      receiver3 = take 3 (drop 3 frame);
      host_rssi = host_rssi;
      host_snr = host_snr;
      timestamp = timestamp;
      reply = reply;
    })
