-- ===== src/Transport/Wire.antt =====
-- hybrid_transport.c: the checksum, and the bytes of the packed structures of hybrid_transport.h
-- on a little-endian machine, which is what the program sends and overlays on what it receives.
pub mod Checksum
pub mod Codec
pub mod Seal
use remote_trans.Base.{
  ℕ, zero, suc, ◌+◌, ◌*◌, ◌/◌, ◌%◌, ◌^◌, List, [], ◌∷◌, ◌++◌, take, drop, replicate,
}
use remote_trans.Transport.Types.{Header, Packet, ht_magic, ht_max_payload_size, sizeof_header}

-- `(c << 1) | (c >> 31)` on a `uint32_t`. The two sides have no bit in common, so `|` is `+`.
abbrev pub rotate_left : ℕ → ℕ
rotate_left c = c * 2 % 2 ^ 32 + c / 2 ^ 31

abbrev pub checksum_step : ℕ → ℕ → ℕ
checksum_step c b = rotate_left ((c + b) % 2 ^ 32)

unfoldable pub checksum_from : ℕ → List ℕ → ℕ
checksum_from c [] = c
checksum_from c (b ∷ bs) = checksum_from (checksum_step c b) bs

unfoldable pub ht_calculate_checksum : List ℕ → ℕ
unfolding checksum_from
ht_calculate_checksum bs = checksum_from 0 bs

-- An unsigned field of `k` bytes, lowest byte first, and its value.
abbrev pub le_bytes : ℕ → ℕ → List ℕ
le_bytes zero x = []
le_bytes (suc k) x = x % 256 ∷ le_bytes k (x / 256)

abbrev pub le_value : List ℕ → ℕ
le_value [] = 0
le_value (b ∷ bs) = b + 256 * le_value bs

abbrev pub encode_header : Header → List ℕ
encode_header h =
    le_bytes 4 h.magic
    ++ (le_bytes 1 h.version
        ++ (le_bytes 1 h.type
            ++ (le_bytes 2 h.flags
                ++ (le_bytes 4 h.sequence
                    ++ (le_bytes 4 h.ack_sequence
                        ++ (le_bytes 2 h.window_size
                            ++ (le_bytes 2 h.payload_size
                                ++ (le_bytes 4 h.timestamp
                                    ++ (le_bytes 4 h.checksum ++ h.reserved)))))))))

abbrev pub encode : Packet → List ℕ
encode p = encode_header p.header ++ p.payload

-- The field of `k` bytes at an offset of a packet's memory.
abbrev pub field_at : ℕ → ℕ → List ℕ → ℕ
field_at offset k bs = le_value (take k (drop offset bs))

unfoldable pub decode : List ℕ → Packet
decode bs = record {
  header = record {
    magic = field_at 0 4 bs;
    version = field_at 4 1 bs;
    type = field_at 5 1 bs;
    flags = field_at 6 2 bs;
    sequence = field_at 8 4 bs;
    ack_sequence = field_at 12 4 bs;
    window_size = field_at 16 2 bs;
    payload_size = field_at 18 2 bs;
    timestamp = field_at 20 4 bs;
    checksum = field_at 24 4 bs;
    reserved = take 8 (drop 28 bs);
  };
  payload = drop sizeof_header bs;
}

-- `packet->header.checksum = x` on a packet's memory.
unfoldable pub put_checksum : ℕ → List ℕ → List ℕ
put_checksum x bs = take 24 bs ++ (le_bytes 4 x ++ drop 28 bs)

-- `memset(&packet, 0, sizeof(packet))`, then the fields that every packet of the program sets.
unfoldable pub blank_packet : ℕ → ℕ → ℕ → Packet
blank_packet type sequence timestamp = record {
  header = record {
    magic = ht_magic;
    version = 1;
    type = type;
    flags = 0;
    sequence = sequence;
    ack_sequence = 0;
    window_size = 0;
    payload_size = 0;
    timestamp = timestamp;
    checksum = 0;
    reserved = replicate 8 0;
  };
  payload = replicate ht_max_payload_size 0;
}

-- What `ht_send_packet` does to its packet before it looks at a descriptor.
abbrev pub clear_checksum : Packet → Packet
clear_checksum p = record p { header = record p.header { checksum = 0 } }

abbrev pub wire_bytes : Packet → List ℕ
wire_bytes p = take (sizeof_header + p.header.payload_size) (encode p)

unfoldable pub seal : Packet → Packet
seal p = record p {
  header = record p.header { checksum = ht_calculate_checksum (wire_bytes (clear_checksum p)) };
}
