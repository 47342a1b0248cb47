-- ===== src/Tests/Wire.antt =====
-- Packet bodies at concrete arguments.
use race_link_host.Prelude.{
  String, ℕ, ◌≤◌, ◌≡◌, refl, true, false, none, some, [], ◌∷◌, ◌++◌, length, pos, negsuc, ok,
}
use race_link_host.Struct.{Bytes, unpack, decode}
use race_link_host.Protocol.Packets.{byte}
use race_link_host.Protocol.RfConfig.{RfConfig, build_rf_config_body, unpack_rf_config_body}
use race_link_host.Protocol.RfConfig.RoundTrip.{to_dict, masked, unpack-build}
use race_link_host.Protocol.OffsetBody.{
  OffsetArgs, by_name, mode_modulo, mode_of_name, coerce_mode, build_offset_body, parse_offset_body,
}
use race_link_host.Protocol.OffsetBody.RoundTrip.{requested, parse-build}
use race_link_host.Protocol.Flags.{Flags}
use race_link_host.Prelude.{take}
use race_link_host.Protocol.Codec.{ReplyEvent, rf_config_reply, parse_reply_event}
use race_link_host.Protocol.Codec.Total.{framed, parse_reply_event_total, parse_reply_event-build}
use race_link_host.Dispatch.Op.{ControlFields}
use race_link_host.Protocol.ControlBody.{build_control_body, main_fields, ext_fields}
use race_link_host.Protocol.ControlBody.Decode.{decode_control, meant, decode-build}

abbrev lora : RfConfig
lora = record {
  freq_hz = pos 867700000;
  bw_khz_x10 = pos 1250;
  sf = pos 7;
  cr_den = pos 5;
  sync_word = pos 18;
  tx_power_dbm = negsuc 2;
  preamble = pos 8;
}

unpack-build_example :
    (bs : Bytes) × (build_rf_config_body (to_dict lora) ≡ ok bs)
    × (length bs ≡ 12)
    × (unpack_rf_config_body (bs ++ 99 ∷ []) ≡ ok (masked lora))
unpack-build_example = unpack-build lora (99 ∷ []) refl

abbrev lora_bytes : Bytes
lora_bytes = 32 ∷ 13 ∷ 184 ∷ 51 ∷ 226 ∷ 4 ∷ 7 ∷ 5 ∷ 18 ∷ 253 ∷ 8 ∷ 0 ∷ []

lora_read : unpack_rf_config_body lora_bytes ≡ ok lora
unfolding unpack_rf_config_body unpack decode
lora_read = refl

abbrev wave : OffsetArgs
wave = record {
  offset_ms = pos 0;
  base_ms = negsuc 99;
  step_ms = pos 70000;
  center = pos 0;
  cycle = pos 0;
}

modulo_known : coerce_mode (by_name "Modulo") ≡ ok mode_modulo
unfolding coerce_mode mode_of_name
modulo_known = refl

parse-build_example :
    (bs : Bytes) × (build_offset_body (pos 300) (by_name "Modulo") wave ≡ ok bs)
    × (2 ≤ length bs)
    × (length bs ≤ 7)
    × (parse_offset_body bs
        ≡ ok (record { group_id = byte (pos 300); config = requested mode_modulo wave }))
parse-build_example = parse-build (pos 300) (by_name "Modulo") mode_modulo wave modulo_known

abbrev armed : Flags
armed = record {
  power_on = true;
  has_bri = true;
  arm_on_sync = true;
  force_tt0 = false;
  force_reapply = false;
  offset_mode = true;
}

abbrev red : ControlFields
red = record {
  brightness = some (pos 200);
  mode = none;
  speed = some (pos 300);
  intensity = none;
  custom1 = none;
  custom2 = none;
  custom3 = none;
  check1 = none;
  check2 = some true;
  check3 = none;
  palette = none;
  color1 = some (pos 255, pos 0, pos 0);
  color2 = none;
  color3 = none;
}

red_body :
    build_control_body (pos 3) (pos 5) red ≡ ok (3 ∷ 5 ∷ 197 ∷ 200 ∷ 44 ∷ 64 ∷ 2 ∷ 255 ∷ 0 ∷ 0 ∷ [])
unfolding build_control_body main_fields ext_fields
red_body = refl

decode-build_example :
    (body : Bytes) × (build_control_body (pos 3) (pos 5) red ≡ ok body)
    × (length body ≤ 21)
    × (decode_control body ≡ some (meant (pos 3) (pos 5) red))
decode-build_example = decode-build (pos 3) (pos 5) red

abbrev no_name : ℕ → String
no_name opc = ""

parse_reply_event_total_example :
    (ev : ReplyEvent) × ((parse_reply_event no_name 3 (1 ∷ 2 ∷ []) 0 (negsuc 80) (pos 9) ≡ ok ev)
      × ((ev.sender3 ≡ take 3 (1 ∷ 2 ∷ [])) × (ev.opc ≡ 3)))
parse_reply_event_total_example =
    parse_reply_event_total no_name 3 (1 ∷ 2 ∷ []) 0 (negsuc 80) (pos 9)

parse_reply_event-build_example :
    (body : Bytes) × ((build_rf_config_body (to_dict lora) ≡ ok body)
      × ((ev : ReplyEvent) × ((parse_reply_event no_name 142
                (framed (1, 2, 3, 4, 5, 6, 7) body (8, 9, 10))
                0
                (negsuc 80)
                (pos 9)
              ≡ ok ev)
            × (ev.reply ≡ rf_config_reply (masked lora)))))
parse_reply_event-build_example =
    parse_reply_event-build no_name lora 142 (1, 2, 3, 4, 5, 6, 7) (8, 9, 10) 0 (negsuc 80) (pos 9)
      refl refl
