-- ===== src/Protocol/ControlBody/RoundTrip.antt =====
-- `build_control_body` never fails, and its bodies are read back.
use race_link_host.Prelude.{
  ℕ, suc, ◌≤◌, ◌≡◌, refl, ap, ◌∙◌, true, some, [], ◌∷◌, arith, leb, length, ℤ, mask,
  assertion_error, ok, ◌>>◌, require,
}
use race_link_host.Struct.{Bytes}
use race_link_host.Dispatch.Op.{ControlFields}
use race_link_host.Protocol.ControlBody.{
  main_fields, ext_fields, body_max, control_bytes, build_control_body,
}
use race_link_host.Protocol.ControlBody.Reader.{mask_from, tail_of, gather-eq}
use race_link_host.Protocol.ControlBody.Blocks.{
  main_list, ext_list, main_widths, ext_widths, read_control, main_list-HaveWidths,
  ext_list-HaveWidths, blocks, read_blocks, length-blocks,
}

main_fields-eq :
    (f : ControlFields) → main_fields f ≡ (mask_from 0 (main_list f), tail_of (main_list f))
unfolding main_fields
main_fields-eq f =
    gather-eq (main_list f) 1 0 [] (omega arith)
    ∙ ap (λ k. (k, tail_of (main_list f))) (omega arith)

ext_fields-eq :
    (f : ControlFields) → ext_fields f ≡ (mask_from 0 (ext_list f), tail_of (ext_list f))
unfolding ext_fields
ext_fields-eq f =
    gather-eq (ext_list f) 1 0 [] (omega arith) ∙ ap (λ k. (k, tail_of (ext_list f))) (omega arith)

control_bytes-eq :
    (group_id flags : ℤ) (f : ControlFields)
    → control_bytes group_id flags (main_fields f) (ext_fields f)
      ≡ mask 256 group_id ∷ mask 256 flags ∷ blocks 128 (main_list f) (ext_list f)
control_bytes-eq group_id flags f =
    ap (λ s. control_bytes group_id flags s (ext_fields f)) (main_fields-eq f)
    ∙ ap (λ s. control_bytes group_id flags (mask_from 0 (main_list f), tail_of (main_list f)) s)
        (ext_fields-eq f)

leb-true : (k n : ℕ) → k ≤ n → leb k n ≡ true
leb-true k n h = ground arith

two_more : (n : ℕ) → n ≤ 19 → suc (suc n) ≤ 21
two_more n h = omega arith

within_22 : (n : ℕ) → n ≤ 21 → n ≤ 22
within_22 n h = omega arith

at_most_21 :
    (g fl : ℕ) (f : ControlFields) → length (g ∷ fl ∷ blocks 128 (main_list f) (ext_list f)) ≤ 21
at_most_21 g fl f =
    let rest : length (blocks 128 (main_list f) (ext_list f)) ≤ 19 =
      length-blocks main_widths ext_widths (main_list f) (ext_list f) (main_list-HaveWidths f)
        (ext_list-HaveWidths f) 128 in
    two_more (length (blocks 128 (main_list f) (ext_list f))) rest

passes_assertion :
    (body other : Bytes)
    → body ≡ other
    → leb (length other) body_max ≡ true
    → (require (leb (length body) body_max) assertion_error >> ok body) ≡ ok other
passes_assertion body other e h = rw (e, h) refl

-- The builder of OPC_CONTROL bodies never fails: its length assertion always holds, the body has at
-- most 21 bytes, and a receiver that goes by the two masks reads from it the low bytes of the group
-- and the flags and exactly the fields that were given.
pub read_control-build :
    (group_id flags : ℤ) (f : ControlFields)
    → (body : Bytes) × ((build_control_body group_id flags f ≡ ok body)
        × ((length body ≤ 21)
            × (read_control body
                ≡ some (record {
                  group_id = mask 256 group_id;
                  flags = mask 256 flags;
                  main = main_list f;
                  ext = ext_list f;
                }))))
unfolding build_control_body
read_control-build group_id flags f =
    let short = at_most_21 (mask 256 group_id) (mask 256 flags) f in
    (
      mask 256 group_id ∷ mask 256 flags ∷ blocks 128 (main_list f) (ext_list f),
      (
        passes_assertion (control_bytes group_id flags (main_fields f) (ext_fields f))
            (mask 256 group_id ∷ mask 256 flags ∷ blocks 128 (main_list f) (ext_list f))
            (control_bytes-eq group_id flags f)
            (leb-true
              (length (mask 256 group_id ∷ mask 256 flags ∷ blocks 128 (main_list f) (ext_list f)))
              22
              (within_22
                (length
                  (mask 256 group_id ∷ mask 256 flags ∷ blocks 128 (main_list f) (ext_list f)))
                short)),
        (
          short,
          read_blocks main_widths ext_widths (main_list f) (ext_list f) (main_list-HaveWidths f)
              (ext_list-HaveWidths f) (mask 256 group_id) (mask 256 flags),
        ),
      ),
    )
