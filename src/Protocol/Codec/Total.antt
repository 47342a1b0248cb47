-- ===== src/Protocol/Codec/Total.antt =====
-- The parser of replies never raises, and decodes the RF configuration that a node packed.
use race_link_host.Prelude.{
  append_nil, take_whole, ℕ, zero, suc, ◌+◌, ◌-◌, ◌*◌, ◌/◌, ◌%◌, ◌≤◌, ◌≡◌, refl, ap, ◌∙◌, inl, inr,
  true, List, [], ◌∷◌, ◌++◌, arith, String, ◌==◌, ==_iff, Bool-cases, length, take, drop,
  length-append, ℤ, Result, ok, ◌>>=◌,
}
use race_link_host.Struct.{Bytes, Format, u8, i8, u16, i16, u32, size, decode, unpack, fits}
use race_link_host.Protocol.RfConfig.{
  RfConfig, rf_config_struct, rf_config_of, unpack_rf_config_body, build_rf_config_body,
}
use race_link_host.Protocol.RfConfig.RoundTrip.{to_dict, masked, unpack-build}
use race_link_host.Protocol.Codec.{
  Reply, rf_config_reply, raw_reply, ReplyEvent, body_of_frame, identify_of, status_with_config,
  status_without_config, long_status, short_status, status_of, config_of, rf_config_reply_of,
  ack_of_body, reply_of, parse_reply_event,
}

decode-ok :
    (f : Format) (bs : Bytes)
    → size f ≤ length bs
    → (v : ℤ) × ((rest : Bytes) × ((decode f bs ≡ ok (v, rest))
          × (length bs ≡ size f + length rest)))
unfolding decode
decode-ok u8 (a ∷ r) h = (_, (r, (refl, omega arith)))
decode-ok i8 (a ∷ r) h = (_, (r, (refl, omega arith)))
decode-ok u16 (a ∷ b ∷ r) h = (_, (r, (refl, omega arith)))
decode-ok i16 (a ∷ b ∷ r) h = (_, (r, (refl, omega arith)))
decode-ok u32 (a ∷ b ∷ c ∷ d ∷ r) h = (_, (r, (refl, omega arith)))
decode-ok u8 [] h = absurd (omega arith)
decode-ok i8 [] h = absurd (omega arith)
decode-ok u16 [] h = absurd (omega arith)
decode-ok u16 (a ∷ []) h = absurd (omega arith)
decode-ok i16 [] h = absurd (omega arith)
decode-ok i16 (a ∷ []) h = absurd (omega arith)
decode-ok u32 [] h = absurd (omega arith)
decode-ok u32 (a ∷ []) h = absurd (omega arith)
decode-ok u32 (a ∷ b ∷ []) h = absurd (omega arith)
decode-ok u32 (a ∷ b ∷ c ∷ []) h = absurd (omega arith)

abbrev sizes : List Format → ℕ
sizes [] = 0
sizes (f ∷ fs) = size f + sizes fs

-- Data of the format's size always unpacks, to one value for each field.
unpack-ok :
    (fs : List Format) (bs : Bytes)
    → length bs ≡ sizes fs
    → (vs : List ℤ) × ((unpack fs bs ≡ ok vs) × (length vs ≡ length fs))
unfolding unpack
unpack-ok [] [] h = ([], (refl, refl))
unpack-ok [] (b ∷ bs) h = absurd (omega arith)
unpack-ok (f ∷ fs) bs h =
    let (v, (rest, (e, n))) = decode-ok f bs (omega arith) in
    let (vs, (es, k)) = unpack-ok fs rest (omega arith) in (v ∷ vs, (rw (e, es) refl, omega arith))

long-ok : (vs : List ℤ) → length vs ≡ 7 → (r : Reply) × (status_with_config vs ≡ ok r)
long-ok (a ∷ b ∷ c ∷ d ∷ e ∷ f ∷ g ∷ []) h = (_, refl)
long-ok _ h = absurd (omega arith)

short-ok : (vs : List ℤ) → length vs ≡ 6 → (r : Reply) × (status_without_config vs ≡ ok r)
short-ok (a ∷ b ∷ c ∷ d ∷ e ∷ f ∷ []) h = (_, refl)
short-ok _ h = absurd (omega arith)

then-ok :
    {A : Type 0} (r : Result (List ℤ)) (vs : List ℤ) (f : List ℤ → Result A) (x : A)
    → r ≡ ok vs
    → f vs ≡ ok x
    → (r >>= f) ≡ ok x
then-ok r vs f x e h = rw e h

status_of-ok : (body : Bytes) → (r : Reply) × (status_of body ≡ ok r)
unfolding status_of
status_of-ok body = elim (Bool-cases (length body == 8)) [
  | inl eight ↦
      let (vs, (e, n)) = unpack-ok long_status body ((==_iff _ _).0 eight) in
      let (r, h) = long-ok vs n in
      (r, rw eight (then-ok (unpack long_status body) vs status_with_config r e h))
  | inr other ↦ elim (Bool-cases (length body == 7)) [
    | inl seven ↦
        let (vs, (e, n)) = unpack-ok short_status body ((==_iff _ _).0 seven) in
        let (r, h) = short-ok vs n in
        (r, rw (other, seven) (then-ok (unpack short_status body) vs status_without_config r e h))
    | inr neither ↦ (raw_reply "STATUS_REPLY" body, rw (other, neither) refl)
  ]
]

seven_fields : (vs : List ℤ) → length vs ≡ 7 → (c : RfConfig) × (rf_config_of vs ≡ ok c)
seven_fields (a ∷ b ∷ c ∷ d ∷ e ∷ f ∷ g ∷ []) h = (_, refl)
seven_fields _ h = absurd (omega arith)

unpack_rf-ok :
    (body : Bytes) → length body ≡ 12 → (c : RfConfig) × (unpack_rf_config_body body ≡ ok c)
unfolding unpack_rf_config_body
unpack_rf-ok body h =
    let (vs, (e, n)) = unpack-ok rf_config_struct body h in
    let (c, k) = seven_fields vs n in
    (c, rw (take_whole 12 body h) (then-ok (unpack rf_config_struct body) vs rf_config_of c e k))

rf_config_reply_of-ok : (body : Bytes) → (r : Reply) × (rf_config_reply_of body ≡ ok r)
unfolding rf_config_reply_of
rf_config_reply_of-ok body = elim (Bool-cases (length body == 12)) [
  | inl twelve ↦
      let (c, e) = unpack_rf-ok body ((==_iff _ _).0 twelve) in
      (rf_config_reply c, rw (twelve, e) refl)
  | inr other ↦ (raw_reply "GET_RF_CONFIG_REPLY" body, rw other refl)
]

module _ (opcode_name : ℕ → String) where
  reply_of-ok : (opc : ℕ) (body : Bytes) → (r : Reply) × (reply_of opcode_name opc body ≡ ok r)
  unfolding reply_of
  reply_of-ok opc body = elim (Bool-cases (opc == 1)) [
    | inl a ↦ (identify_of body, rw a refl)
    | inr a ↦ elim (Bool-cases (opc == 3)) [
      | inl b ↦ let (r, e) = status_of-ok body in (r, rw (a, b) e)
      | inr b ↦ elim (Bool-cases (opc == 10)) [
        | inl c ↦ (config_of body, rw (a, b, c) refl)
        | inr c ↦ elim (Bool-cases (opc == 14)) [
          | inl d ↦ let (r, e) = rf_config_reply_of-ok body in (r, rw (a, b, c, d) e)
          | inr d ↦ elim (Bool-cases (opc == 126)) [
            | inl f ↦ (ack_of_body body, rw (a, b, c, d, f) refl)
            | inr f ↦ (raw_reply (opcode_name opc) body, rw (a, b, c, d, f) refl)
          ]
        ]
      ]
    ]
  ]

  -- The event of a frame whose reply is decoded.
  module _ (type_byte : ℕ) (frame : Bytes) (timestamp : ℕ) (host_rssi host_snr : ℤ) where
    abbrev event_with : Reply → ReplyEvent
    event_with r = record {
      type_byte = type_byte;
      dir = type_byte / 128 % 2 * 128;
      opc = type_byte % 128;
      sender3 = take 3 frame;
      receiver3 = take 3 (drop 3 frame);
      host_rssi = host_rssi;
      host_snr = host_snr;
      timestamp = timestamp;
      reply = r;
    }

    parsed :
        (r : Reply)
        → reply_of opcode_name (type_byte % 128) (body_of_frame frame) ≡ ok r
        → parse_reply_event opcode_name type_byte frame timestamp host_rssi host_snr
          ≡ ok (event_with r)
    unfolding parse_reply_event
    parsed r e = rw e refl

  rf_reply :
      (opc : ℕ) (body : Bytes) (c : RfConfig)
      → opc ≡ 14
      → length body ≡ 12
      → unpack_rf_config_body body ≡ ok c
      → reply_of opcode_name opc body ≡ ok (rf_config_reply c)
  unfolding reply_of rf_config_reply_of
  rf_reply opc body c e twelve read =
      let size : (length body == 12) ≡ true = (==_iff _ _).1 twelve in rw (e, size, read) refl

  -- The parser never raises, whatever the type byte and however short or long the frame; the event
  -- carries the frame's first three bytes as sender and the low seven bits of the type as opcode.
  pub parse_reply_event_total :
      (type_byte : ℕ) (frame : Bytes) (timestamp : ℕ) (host_rssi host_snr : ℤ)
      → (ev : ReplyEvent) × ((parse_reply_event opcode_name type_byte frame timestamp host_rssi
              host_snr
            ≡ ok ev)
          × ((ev.sender3 ≡ take 3 frame) × (ev.opc ≡ type_byte % 128)))
  parse_reply_event_total type_byte frame timestamp host_rssi host_snr =
      let (r, e) = reply_of-ok (type_byte % 128) (body_of_frame frame) in
      (
        event_with type_byte frame timestamp host_rssi host_snr r,
        (parsed type_byte frame timestamp host_rssi host_snr r e, (refl, refl)),
      )

-- A frame: seven header bytes, a body, and three bytes that the gateway adds.
abbrev pub framed : ℕ × ℕ × ℕ × ℕ × ℕ × ℕ × ℕ → Bytes → ℕ × ℕ × ℕ → Bytes
framed (s0, s1, s2, r0, r1, r2, x) body (t0, t1, t2) =
    s0 ∷ s1 ∷ s2 ∷ r0 ∷ r1 ∷ r2 ∷ x ∷ (body ++ t0 ∷ t1 ∷ t2 ∷ [])

take_front : (n : ℕ) (body rest : Bytes) → n ≡ length body → take n (body ++ rest) ≡ body
take_front zero [] rest h = refl
take_front zero (b ∷ body) rest h = absurd (omega arith)
take_front (suc n) [] rest h = absurd (omega arith)
take_front (suc n) (b ∷ body) rest h = ap (λ r. b ∷ r) (take_front n body rest (omega arith))

body_of_frame-framed :
    (h : ℕ × ℕ × ℕ × ℕ × ℕ × ℕ × ℕ) (body : Bytes) (t : ℕ × ℕ × ℕ)
    → body_of_frame (framed h body t) ≡ body
body_of_frame-framed (s0, s1, s2, r0, r1, r2, x) body (t0, t1, t2) =
    let size : length (body ++ t0 ∷ t1 ∷ t2 ∷ []) ≡ length body + 3 =
      length-append body (t0 ∷ t1 ∷ t2 ∷ []) in
    rw (size, front (length body)) (take_front (length body) body (t0 ∷ t1 ∷ t2 ∷ []) refl)
  where
    front :
        (n : ℕ)
        → suc (suc (suc (suc (suc (suc (suc (n + 3))))))) - 3
          ≡ suc (suc (suc (suc (suc (suc (suc n))))))
    front n = omega arith

-- A GET_RF_CONFIG reply in which a node packed its configuration, with a power that fits a signed
-- byte, is decoded to that configuration with the builder's masks applied, whatever the header, the
-- three bytes that the gateway adds, and the direction bit of the type.
pub parse_reply_event-build :
    (opcode_name : ℕ → String) (c : RfConfig) (type_byte : ℕ) (h : ℕ × ℕ × ℕ × ℕ × ℕ × ℕ × ℕ)
    (t : ℕ × ℕ × ℕ) (timestamp : ℕ) (host_rssi host_snr : ℤ)
    → fits i8 c.tx_power_dbm ≡ true
    → type_byte % 128 ≡ 14
    → (body : Bytes) × ((build_rf_config_body (to_dict c) ≡ ok body)
        × ((ev : ReplyEvent) × ((parse_reply_event opcode_name type_byte
                  (framed h body t)
                  timestamp
                  host_rssi
                  host_snr
                ≡ ok ev)
              × (ev.reply ≡ rf_config_reply (masked c)))))
parse_reply_event-build opcode_name c type_byte h t timestamp host_rssi host_snr fit e =
    let (body, built, twelve, read) = unpack-build c [] fit in
    let read' : unpack_rf_config_body body ≡ ok (masked c) = rw (append_nil body) at read in
    let decoded =
      rf_reply opcode_name (type_byte % 128) (body_of_frame (framed h body t)) (masked c) e
        (ap length (body_of_frame-framed h body t) ∙ twelve)
        (ap unpack_rf_config_body (body_of_frame-framed h body t) ∙ read') in
    (
      body,
      (
        built,
        (
          event_with opcode_name type_byte (framed h body t) timestamp host_rssi host_snr
              (rf_config_reply (masked c)),
          (
            parsed opcode_name type_byte (framed h body t) timestamp host_rssi host_snr
                (rf_config_reply (masked c)) decoded,
            refl,
          ),
        ),
      ),
    )
