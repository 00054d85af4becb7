-- ===== src/Transport/Wire/Seal.antt =====
-- A packet with its checksum filled in, as `ht_send_packet` leaves it.
use remote_trans.Base.{
  ℕ, ◌+◌, ◌^◌, ◌≤◌, ◌<◌, ◌≡◌, refl, sym, ap, ◌∙◌, List, ◌++◌, arith, length, take, drop,
  length-take, length-append, take-append_all, append_assoc,
}
use remote_trans.Transport.Types.{Packet, sizeof_header}
use remote_trans.Transport.Wire.{
  ht_calculate_checksum, encode_header, decode, put_checksum, clear_checksum, wire_bytes, seal,
}
use remote_trans.Transport.Wire.Checksum.{ht_calculate_checksum-lt}
use remote_trans.Transport.Wire.Codec.{
  IsHeader, decode-encode_header, drop-encode_header, take-encode_header,
  put_checksum-encode_header,
}

-- The fields are in range, and the payload that the header announces is there.
pub record IsPacket (p : Packet) : Type 0 where
  pub header : IsHeader p.header
  pub filled : p.header.payload_size ≤ length p.payload

-- Only the checksum field of the packet changes.
pub payload-seal : (p : Packet) → (seal p).payload ≡ p.payload
unfolding seal
payload-seal p = refl

with_checksum-IsPacket :
    (p : Packet) (x : ℕ)
    → IsPacket p
    → x < 2 ^ 32
    → IsPacket (record p { header = record p.header { checksum = x } })
with_checksum-IsPacket p x v h = record {
  header = record {
    magic = v.header.magic;
    version = v.header.version;
    type = v.header.type;
    flags = v.header.flags;
    sequence = v.header.sequence;
    ack_sequence = v.header.ack_sequence;
    window_size = v.header.window_size;
    payload_size = v.header.payload_size;
    timestamp = v.header.timestamp;
    checksum = h;
    reserved = v.header.reserved;
  };
  filled = v.filled;
}

pub seal-IsPacket : (p : Packet) → IsPacket p → IsPacket (seal p)
unfolding seal
seal-IsPacket p v = with_checksum-IsPacket p _ v (ht_calculate_checksum-lt _)

-- Sealing again, as a retransmission or the second channel does, changes nothing.
pub seal-seal : (p : Packet) → seal (seal p) ≡ seal p
unfolding seal
seal-seal p = refl

wire_bytes-split :
    (p : Packet)
    → IsPacket p
    → wire_bytes p ≡ encode_header p.header ++ take p.header.payload_size p.payload
wire_bytes-split p v = take-encode_header p.header p.payload p.header.payload_size v.header

module _ (p : Packet) (v : IsPacket p) (rest : List ℕ) where
  -- The memory of a receiver whose first bytes are a sealed packet's.
  abbrev sealed : Packet
  sealed = seal p

  abbrev body : List ℕ
  body = take p.header.payload_size p.payload

  memory : wire_bytes (seal p) ++ rest ≡ encode_header (seal p).header ++ (body ++ rest)
  unfolding seal
  memory =
      ap (λ bs. bs ++ rest) (wire_bytes-split (seal p) (seal-IsPacket p v))
      ∙ append_assoc (encode_header (seal p).header) body rest

  pub header-of_sealed : (decode (wire_bytes (seal p) ++ rest)).header ≡ (seal p).header
  header-of_sealed =
      ap (λ bs. (decode bs).header) memory
      ∙ decode-encode_header (seal p).header (body ++ rest) (seal-IsPacket p v).header

  body_prefix : take p.header.payload_size (body ++ rest) ≡ body
  body_prefix =
      take-append_all body rest p.header.payload_size
        (omega (arith, v.filled, length-take p.header.payload_size p.payload))

  -- The receiver computes the checksum that the sender stored.
  pub checksum-of_sealed :
      ht_calculate_checksum (
        take (sizeof_header + p.header.payload_size) (put_checksum 0 (wire_bytes (seal p) ++ rest)))
      ≡ (seal p).header.checksum
  unfolding seal
  checksum-of_sealed =
      ap (λ bs. ht_calculate_checksum (take size bs)) cleared
      ∙ ap ht_calculate_checksum (prefix ∙ sym (wire_bytes-split (clear_checksum p) clear))
    where
      size : ℕ
      size = sizeof_header + p.header.payload_size

      clear : IsPacket (clear_checksum p)
      clear = with_checksum-IsPacket p 0 v (omega arith)

      cleared :
          put_checksum 0 (wire_bytes (seal p) ++ rest)
          ≡ encode_header (clear_checksum p).header ++ (body ++ rest)
      cleared =
          ap (put_checksum 0) memory ∙ put_checksum-encode_header (seal p).header 0 (body ++ rest)

      prefix :
          take size (encode_header (clear_checksum p).header ++ (body ++ rest))
          ≡ encode_header (clear_checksum p).header ++ body
      prefix =
          take-encode_header (clear_checksum p).header (body ++ rest) p.header.payload_size
            clear.header
          ∙ ap (◌++◌ (encode_header (clear_checksum p).header)) body_prefix

  -- Storing the checksum again gives back the memory that was received.
  pub restored :
      put_checksum (seal p).header.checksum (put_checksum 0 (wire_bytes (seal p) ++ rest))
      ≡ wire_bytes (seal p) ++ rest
  unfolding put_checksum
  restored =
      ap (λ bs. put_checksum (seal p).header.checksum (put_checksum 0 bs)) memory ∙ sym memory

  -- The payload that the header announces is read back.
  pub payload-of_sealed :
      take p.header.payload_size (decode (wire_bytes (seal p) ++ rest)).payload
      ≡ take p.header.payload_size p.payload
  unfolding decode
  payload-of_sealed =
      ap (λ bs. take p.header.payload_size (drop sizeof_header bs)) memory
      ∙ ap (take p.header.payload_size)
          (drop-encode_header (seal p).header (body ++ rest) (seal-IsPacket p v).header)
      ∙ body_prefix

  pub length-wire_bytes : length (wire_bytes (seal p)) ≡ sizeof_header + p.header.payload_size
  unfolding seal
  length-wire_bytes = omega (
    arith,
    ap length (wire_bytes-split (seal p) (seal-IsPacket p v)),
    length-append {0} (encode_header (seal p).header) (take p.header.payload_size p.payload),
    length-take {0} p.header.payload_size p.payload,
    v.filled,
    v.header.reserved,
  )
