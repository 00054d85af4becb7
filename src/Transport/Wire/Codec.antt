-- ===== src/Transport/Wire/Codec.antt =====
-- The layout of the packed structures: writing a packet to memory and reading it back.
use remote_trans.Base.{
  ℕ, ◌+◌, ◌^◌, ◌≤◌, ◌<◌, ◌≡◌, refl, ap, ap₂, ◌∙◌, List, ◌++◌, arith, length, take, drop,
  take-append_all, drop-append_all, drop-append_past, take-append_past, slice_of_prefix,
  length-append, length-take, length-drop,
}
use remote_trans.Transport.Types.{Header, sizeof_header}
use remote_trans.Transport.Wire.{le_bytes, le_value, encode_header, decode, put_checksum}

-- Each field lies in the range of its C type.
pub record IsHeader (h : Header) : Type 0 where
  pub magic : h.magic < 2 ^ 32
  pub version : h.version < 2 ^ 8
  pub type : h.type < 2 ^ 8
  pub flags : h.flags < 2 ^ 16
  pub sequence : h.sequence < 2 ^ 32
  pub ack_sequence : h.ack_sequence < 2 ^ 32
  pub window_size : h.window_size < 2 ^ 16
  pub payload_size : h.payload_size < 2 ^ 16
  pub timestamp : h.timestamp < 2 ^ 32
  pub checksum : h.checksum < 2 ^ 32
  pub reserved : length h.reserved ≡ 8

pub le_value-le_bytes_one : (x : ℕ) → x < 2 ^ 8 → le_value (le_bytes 1 x) ≡ x
le_value-le_bytes_one x h = omega arith

pub le_value-le_bytes_two : (x : ℕ) → x < 2 ^ 16 → le_value (le_bytes 2 x) ≡ x
le_value-le_bytes_two x h = omega arith

pub le_value-le_bytes_four : (x : ℕ) → x < 2 ^ 32 → le_value (le_bytes 4 x) ≡ x
le_value-le_bytes_four x h = omega arith

-- The header of a packet is read back from the first 36 bytes, whatever follows them.
pub decode-encode_header :
    (h : Header) (rest : List ℕ) → IsHeader h → (decode (encode_header h ++ rest)).header ≡ h
unfolding decode
decode-encode_header h rest v = λ i. record {
  magic = le_value-le_bytes_four h.magic v.magic i;
  version = le_value-le_bytes_one h.version v.version i;
  type = le_value-le_bytes_one h.type v.type i;
  flags = le_value-le_bytes_two h.flags v.flags i;
  sequence = le_value-le_bytes_four h.sequence v.sequence i;
  ack_sequence = le_value-le_bytes_four h.ack_sequence v.ack_sequence i;
  window_size = le_value-le_bytes_two h.window_size v.window_size i;
  payload_size = le_value-le_bytes_two h.payload_size v.payload_size i;
  timestamp = le_value-le_bytes_four h.timestamp v.timestamp i;
  checksum = le_value-le_bytes_four h.checksum v.checksum i;
  reserved = take-append_all h.reserved rest 8 (omega arith) i;
}

pub drop-encode_header :
    (h : Header) (rest : List ℕ) → IsHeader h → drop sizeof_header (encode_header h ++ rest) ≡ rest
drop-encode_header h rest v = drop-append_all h.reserved rest 8 (omega arith)

-- Writing the checksum field in memory is writing it in the structure.
pub put_checksum-encode_header :
    (h : Header) (x : ℕ) (rest : List ℕ)
    → put_checksum x (encode_header h ++ rest) ≡ encode_header (record h { checksum = x }) ++ rest
unfolding put_checksum
put_checksum-encode_header h x rest = refl

-- What a packet puts on the wire: its whole header, and as much payload as the header says.
pub take-encode_header :
    (h : Header) (rest : List ℕ) (n : ℕ)
    → IsHeader h
    → take (sizeof_header + n) (encode_header h ++ rest) ≡ encode_header h ++ take n rest
take-encode_header h rest n v =
    take-append_past (encode_header h) rest (sizeof_header + n) n (omega arith)

pub length-put_checksum :
    (x : ℕ) (bs : List ℕ) → 28 ≤ length bs → length (put_checksum x bs) ≡ length bs
unfolding put_checksum
length-put_checksum x bs h = omega (
  arith,
  length-append {0} (take 24 bs) (le_bytes 4 x ++ drop 28 bs),
  length-take {0} 24 bs,
  length-drop {0} 28 bs,
)

-- The header is what the first 36 bytes say.
pub header_of_prefix :
    (xs ys : List ℕ)
    → sizeof_header ≤ length xs
    → (decode (take sizeof_header xs ++ ys)).header ≡ (decode xs).header
unfolding decode
header_of_prefix xs ys h = λ i. record {
  magic = le_value (slice_of_prefix 0 4 36 xs ys (omega arith) h i);
  version = le_value (slice_of_prefix 4 1 36 xs ys (omega arith) h i);
  type = le_value (slice_of_prefix 5 1 36 xs ys (omega arith) h i);
  flags = le_value (slice_of_prefix 6 2 36 xs ys (omega arith) h i);
  sequence = le_value (slice_of_prefix 8 4 36 xs ys (omega arith) h i);
  ack_sequence = le_value (slice_of_prefix 12 4 36 xs ys (omega arith) h i);
  window_size = le_value (slice_of_prefix 16 2 36 xs ys (omega arith) h i);
  payload_size = le_value (slice_of_prefix 18 2 36 xs ys (omega arith) h i);
  timestamp = le_value (slice_of_prefix 20 4 36 xs ys (omega arith) h i);
  checksum = le_value (slice_of_prefix 24 4 36 xs ys (omega arith) h i);
  reserved = slice_of_prefix 28 8 36 xs ys (omega arith) h i;
}

-- The memory around the checksum field, which `put_checksum` leaves alone.
module _ (x : ℕ) (bs : List ℕ) (long : sizeof_header ≤ length bs) where
  behind : List ℕ
  behind = le_bytes 4 x ++ drop 28 bs

  before_checksum : take 24 (put_checksum x bs) ≡ take 24 bs
  unfolding put_checksum
  before_checksum = take-append_all (take 24 bs) _ 24 (omega (arith, length-take {0} 24 bs))

  at_checksum : take 4 (drop 24 (put_checksum x bs)) ≡ le_bytes 4 x
  unfolding put_checksum
  at_checksum =
      ap (take 4) (drop-append_all (take 24 bs) _ 24 (omega (arith, length-take {0} 24 bs)))

  after_checksum : drop 28 (put_checksum x bs) ≡ drop 28 bs
  unfolding put_checksum
  after_checksum = drop-append_past (take 24 bs) _ 28 4 (omega (arith, length-take {0} 24 bs))

  pub header-put_checksum :
      x < 2 ^ 32 → (decode (put_checksum x bs)).header ≡ record (decode bs).header { checksum = x }
  unfolding decode put_checksum behind
  header-put_checksum small = λ i. record {
    magic = le_value (slice_of_prefix 0 4 24 bs behind (omega arith) (omega arith) i);
    version = le_value (slice_of_prefix 4 1 24 bs behind (omega arith) (omega arith) i);
    type = le_value (slice_of_prefix 5 1 24 bs behind (omega arith) (omega arith) i);
    flags = le_value (slice_of_prefix 6 2 24 bs behind (omega arith) (omega arith) i);
    sequence = le_value (slice_of_prefix 8 4 24 bs behind (omega arith) (omega arith) i);
    ack_sequence = le_value (slice_of_prefix 12 4 24 bs behind (omega arith) (omega arith) i);
    window_size = le_value (slice_of_prefix 16 2 24 bs behind (omega arith) (omega arith) i);
    payload_size = le_value (slice_of_prefix 18 2 24 bs behind (omega arith) (omega arith) i);
    timestamp = le_value (slice_of_prefix 20 4 24 bs behind (omega arith) (omega arith) i);
    checksum = (ap le_value at_checksum ∙ le_value-le_bytes_four x small) i;
    reserved = take 8 (after_checksum i);
  }

  -- Of two writes the second counts.
  pub put_checksum-put_checksum : (y : ℕ) → put_checksum y (put_checksum x bs) ≡ put_checksum y bs
  unfolding put_checksum
  put_checksum-put_checksum y =
      ap₂ (λ (a b : List ℕ). a ++ (le_bytes 4 y ++ b)) before_checksum after_checksum
