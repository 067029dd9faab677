-- ===== src/Packet/Mic.antt =====
-- The MIC at the end of a packet's payload: hasMIC, extractMIC, getDataWithoutMIC, appendMIC.
use radio_mesh.Base.{
  ℕ, ◌-◌, ◌≤◌, ◌≡◌, ◌≢◌, refl, true, List, ◌++◌, length, arith, length-append, take-append,
  drop-append, leb-true, ==_ne,
}
use radio_mesh.Types.{include_open, include_request}
use radio_mesh.Packet.{
  Packet, append_mic, data_without_mic, extract_mic, has_mic, mic_size, max_data_length,
}

-- A topic whose packets carry a MIC: all but the two messages of the public key exchange.
pub record CarriesMic (topic : ℕ) : Type 0 where
  pub ne_open : topic ≢ include_open
  pub ne_request : topic ≢ include_request

-- What a MIC of the right size and a payload that fits make of the packet.
pub append_mic-eq :
    (p : Packet) (mic : List ℕ)
    → length mic ≡ mic_size
    → length p.packet_data ≤ max_data_length
    → append_mic p mic ≡ record p { packet_data = p.packet_data ++ mic }
unfolding append_mic
append_mic-eq p mic h fits = ground arith

has_mic-append :
    (p : Packet) (mic : List ℕ)
    → CarriesMic p.topic
    → length mic ≡ mic_size
    → has_mic (record p { packet_data = p.packet_data ++ mic }) ≡ true
unfolding has_mic
has_mic-append p mic c h = rw (
  ==_ne p.topic include_open c.ne_open,
  ==_ne p.topic include_request c.ne_request,
  leb-true mic_size (length (p.packet_data ++ mic))
      (omega (arith, length-append p.packet_data mic)),
)

payload_length :
    (xs mic : List ℕ) → length mic ≡ mic_size → length (xs ++ mic) - mic_size ≡ length xs
payload_length xs mic h = omega (arith, length-append xs mic)

-- The receiver's split of the payload undoes the sender's appending, on a topic with a MIC.
pub split-append_mic :
    (p : Packet) (mic : List ℕ)
    → CarriesMic p.topic
    → length mic ≡ mic_size
    → length p.packet_data ≤ max_data_length
    → (has_mic (append_mic p mic) ≡ true)
      × (extract_mic (append_mic p mic) ≡ mic)
      × (data_without_mic (append_mic p mic) ≡ p.packet_data)
unfolding extract_mic data_without_mic
split-append_mic p mic c h fits =
    rw (append_mic-eq p mic h fits, has_mic-append p mic c h, payload_length p.packet_data mic h)
      (refl, drop-append p.packet_data mic, take-append p.packet_data mic)
