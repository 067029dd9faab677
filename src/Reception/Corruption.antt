-- ===== src/Reception/Corruption.antt =====
-- isReceivedDataCrcValid of framework/device/src/Device.cpp on a payload that was changed on its way.
use radio_mesh.Base.{
  ℕ, ◌<◌, ◌≡◌, ◌≢◌, ap, ◌∙◌, sym, true, false, List, ◌∷◌, ◌++◌, ◌==◌, ==_iff, Bool-cases, inl, inr,
  arith,
}
use radio_mesh.Packet.{Packet, data_without_mic}
use radio_mesh.Crc32
use radio_mesh.Crc32.Detection.{
  update_bytes-lt, update_bytes-one_byte, update_u32-lt, finalize-injective,
}
use radio_mesh.PacketRouter.{payload_crc}
use radio_mesh.Reception.{is_received_data_crc_valid}

-- Payloads that differ in one byte have different CRCs.
payload_crc-one_byte :
    (counter : ℕ) (before after : List ℕ) (v w : ℕ)
    → v < 256
    → w < 256
    → payload_crc counter (before ++ (v ∷ after)) ≡ payload_crc counter (before ++ (w ∷ after))
    → v ≡ w
unfolding payload_crc
payload_crc-one_byte counter before after v w p q e =
    let start = Crc32.update_u32 Crc32.reset counter in
    let small = update_u32-lt Crc32.reset counter (omega arith) in
    update_bytes-one_byte before after start v w small p q (
      finalize-injective (Crc32.update_bytes start (before ++ (v ∷ after)))
        (Crc32.update_bytes start (before ++ (w ∷ after)))
        (update_bytes-lt (before ++ (v ∷ after)) start small)
        (update_bytes-lt (before ++ (w ∷ after)) start small) e)

-- A receiver that would accept a packet by its CRC refuses the packet in which one byte of the payload,
-- at any place, has another value, whichever: the CRC finds every error within one byte.
pub is_received_data_crc_valid-one_byte :
    (p changed : Packet) (before after : List ℕ) (v w : ℕ)
    → v < 256
    → w < 256
    → v ≢ w
    → data_without_mic p ≡ before ++ (v ∷ after)
    → data_without_mic changed ≡ before ++ (w ∷ after)
    → changed.fcounter ≡ p.fcounter
    → changed.packet_crc ≡ p.packet_crc
    → is_received_data_crc_valid p ≡ true
    → is_received_data_crc_valid changed ≡ false
unfolding is_received_data_crc_valid
is_received_data_crc_valid-one_byte p changed before after v w small small' ne old new counter crc
      ok =
    elim (Bool-cases
      (payload_crc changed.fcounter (data_without_mic changed) == changed.packet_crc)) [
        | inl same ↦
            let a : payload_crc p.fcounter (data_without_mic p) ≡ p.packet_crc =
              (==_iff (payload_crc p.fcounter (data_without_mic p)) p.packet_crc).0 ok in
            let b : payload_crc changed.fcounter (data_without_mic changed) ≡ changed.packet_crc =
              (==_iff (payload_crc changed.fcounter (data_without_mic changed))
                  changed.packet_crc).0
                same in
            let e : payload_crc p.fcounter (before ++ (v ∷ after))
                ≡ payload_crc p.fcounter (before ++ (w ∷ after)) =
              ap (payload_crc p.fcounter) (sym old)
              ∙ a
              ∙ sym crc
              ∙ sym b
              ∙ ap (λ c. payload_crc c (data_without_mic changed)) counter
              ∙ ap (payload_crc p.fcounter) new in
            absurd (ne (payload_crc-one_byte p.fcounter before after v w small small' e))
        | inr differ ↦ differ
      ]
