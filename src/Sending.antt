-- ===== src/Sending.antt =====
-- The bodies that racelink/services/control_service.py and gateway_service.py have built for an effect,
-- an offset or a sync: the arguments that the service passes, and the builder of gateway_serial.py.
use race_link_host.Prelude.{
  Bool, true, false, not, Option, none, some, ◌==◌, if◌then◌else◌, get_or, is_some, ℤ, pos, negsuc,
  mask, key_error, Result, ok, err,
}
use race_link_host.Struct.{Bytes}
use race_link_host.Protocol.Flags.{build_flags_byte}
use race_link_host.Protocol.Packets.{
  byte, build_preset_body, build_sync_body, sync_flag_trigger_armed,
}
use race_link_host.Protocol.ControlBody.{build_control_body}
use race_link_host.Protocol.OffsetBody.{
  OffsetConfig, mode_name, mode_of_config, args_of_config, by_name, build_offset_body,
}
use race_link_host.Dispatch.Op.{
  ControlFields, Params, TargetKwargs, to_group, to_device, Payload, offset_kwargs, sync_kwargs,
  effect_kwargs, Sender, send_offset, send_sync, send_control, send_wled_preset,
}

-- `brightness > 0`
abbrev pub is_lit : ℤ → Bool
is_lit (pos n) = not (n == 0)
is_lit (negsuc n) = false

-- `bool(params.get(key))`
abbrev pub asked : Option Bool → Bool
asked o = get_or o false

-- The flags byte of an effect of this brightness.
unfoldable pub effect_flags : ℤ → Params → ℤ
effect_flags brightness params = pos (
    build_flags_byte (record {
      power_on = is_lit brightness;
      arm_on_sync = asked params.flags.arm_on_sync;
      has_bri = true;
      force_tt0 = asked params.flags.force_tt0;
      force_reapply = asked params.flags.force_reapply;
      offset_mode = asked params.flags.offset_mode;
    }))

-- `int(targetGroup) & 0xFF`, or the group of the device.
abbrev pub group_b : TargetKwargs → ℤ
group_b (to_group g) = byte g
group_b (to_device device) = byte (get_or device.group_id (pos 0))

-- `brightness_val` of `send_control`
abbrev pub brightness_val : ControlFields → ℤ
brightness_val f = elim f.brightness as (λ o. ℤ) [ none ↦ pos 0 | some b ↦ byte b ]

-- `int(params[key]) & 0xFF`, and the three channels of a colour.
abbrev pub byte_kwarg : Option ℤ → Option ℤ
byte_kwarg none = none
byte_kwarg (some v) = some (byte v)

abbrev pub color_kwarg : Option (ℤ × ℤ × ℤ) → Option (ℤ × ℤ × ℤ)
color_kwarg none = none
color_kwarg (some (r, g, b)) = some (byte r, byte g, byte b)

-- `ctrl_kwargs`
unfoldable pub control_kwargs : ControlFields → ControlFields
control_kwargs f = record {
  brightness = if is_some f.brightness then some (brightness_val f) else none;
  mode = byte_kwarg f.mode;
  speed = byte_kwarg f.speed;
  intensity = byte_kwarg f.intensity;
  custom1 = byte_kwarg f.custom1;
  custom2 = byte_kwarg f.custom2;
  custom3 = byte_kwarg f.custom3;
  check1 = f.check1;
  check2 = f.check2;
  check3 = f.check3;
  palette = byte_kwarg f.palette;
  color1 = color_kwarg f.color1;
  color2 = color_kwarg f.color2;
  color3 = color_kwarg f.color3;
}

-- `send_control`
unfoldable pub control_frame : Params → TargetKwargs → Result Bytes
control_frame params kwargs =
    build_control_body (group_b kwargs) (effect_flags (brightness_val params.fields) params)
      (control_kwargs params.fields)

-- `send_wled_preset`
unfoldable pub preset_frame : Params → TargetKwargs → Result Bytes
preset_frame params kwargs =
    let brightness = get_or params.fields.brightness (pos 0) in
    build_preset_body (group_b kwargs) (byte (effect_flags brightness params))
      (byte (get_or params.preset_id (pos 1))) (byte brightness)

-- `send_offset` to a group
abbrev pub offset_frame : ℤ → OffsetConfig → Result Bytes
offset_frame target_group config =
    build_offset_body (byte target_group) (by_name (mode_name (mode_of_config config)))
      (args_of_config config)

-- `SyncService.send_sync`, at the clock tick `ts24`.
abbrev pub sync_frame : ℤ → ℤ → Bool → Bytes
sync_frame ts24 brightness trigger_armed =
    build_sync_body (pos (mask 16777216 ts24)) (byte brightness)
      (if trigger_armed then sync_flag_trigger_armed else pos 0)

-- The body of an operation that is sent at the clock tick `ts24`, but for a start block, whose body
-- the controller builds.
unfoldable pub frame_of : ℤ → Sender → ℤ → Payload → Result Bytes
frame_of ts24 send_offset g (offset_kwargs config) = offset_frame g config
frame_of ts24 send_sync g (sync_kwargs brightness trigger_armed) =
    ok (sync_frame ts24 brightness trigger_armed)
frame_of ts24 send_control g (effect_kwargs params kwargs) = control_frame params kwargs
frame_of ts24 send_wled_preset g (effect_kwargs params kwargs) = preset_frame params kwargs
frame_of ts24 _ g payload = err key_error
