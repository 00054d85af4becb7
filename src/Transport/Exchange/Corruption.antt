-- ===== src/Transport/Exchange/Corruption.antt =====
-- A datagram with one byte changed on its way to `ht_recv_packet`.
use remote_trans.Base.{
  ℕ, suc, ◌+◌, ◌≤◌, ◌<◌, ◌≡◌, ◌≢◌, sym, ap, ap₂, ◌∙◌, false, List, [], ◌∷◌, ◌++◌, pos, minus_one,
  arith, length, take, drop, length-append, append_assoc, take-append_left, drop-append_left,
  take-append_all,
}
use remote_trans.World.{World, reply, recvfrom}
use remote_trans.Transport.Types.{Packet, Conn, ht_max_payload_size, sizeof_header}
use remote_trans.Transport.Wire.{
  le_bytes, ht_calculate_checksum, decode, put_checksum, wire_bytes, seal,
}
use remote_trans.Transport.Wire.Checksum.{checksum_detects}
use remote_trans.Transport.Wire.Codec.{header_of_prefix, length-put_checksum}
use remote_trans.Transport.Wire.Seal.{
  IsPacket, header-of_sealed, checksum-of_sealed, length-wire_bytes,
}
use remote_trans.Transport.Recv.{
  checksummed, checksummed-within, Poll, poll_udp, poll_tcp, validate, ht_recv_packet,
}
use remote_trans.Transport.Exchange.{poll-datagram}

-- A header in front of other bytes does not depend on them.
header-append :
    (xs ys zs : List ℕ)
    → sizeof_header ≤ length xs
    → (decode (xs ++ ys)).header ≡ (decode (xs ++ zs)).header
header-append xs ys zs h = header_at ys ∙ sym (header_at zs)
  where
    header_at :
        (ws : List ℕ) → (decode (xs ++ ws)).header ≡ (decode (take sizeof_header xs ++ [])).header
    header_at ws =
        sym (header_of_prefix (xs ++ ws) [] (omega (arith, length-append {0} xs ws)))
        ∙ ap (λ bs. (decode (bs ++ [])).header) (take-append_left sizeof_header xs ws h)

put_checksum-append :
    (x : ℕ) (xs ys : List ℕ)
    → sizeof_header ≤ length xs
    → put_checksum x (xs ++ ys) ≡ put_checksum x xs ++ ys
unfolding put_checksum
put_checksum-append x xs ys h =
    ap₂ (λ (a b : List ℕ). a ++ (le_bytes 4 x ++ b)) (take-append_left 24 xs ys (omega arith))
      (drop-append_left 28 xs ys (omega arith))
    ∙ sym (append_assoc (take 24 xs) (le_bytes 4 x ++ drop 28 xs) ys)

-- The packet, the bytes before and behind the changed byte, and the byte before and after.
module _ (p : Packet) (v : IsPacket p) (xs ys : List ℕ) (a b : ℕ)
    (wire : wire_bytes (seal p) ≡ xs ++ a ∷ ys) (in_payload : sizeof_header ≤ length xs)
    (byte : a < 256) (byte' : b < 256) (differ : a ≢ b) (rest : List ℕ) where
  abbrev memory : ℕ → List ℕ
  memory k = (xs ++ k ∷ ys) ++ rest

  abbrev size : ℕ
  size = sizeof_header + p.header.payload_size

  memory_split : (k : ℕ) → memory k ≡ xs ++ (k ∷ (ys ++ rest))
  memory_split k = append_assoc xs (k ∷ ys) rest

  header-corrupted : (decode (memory b)).header ≡ (seal p).header
  header-corrupted =
      ap (λ bs. (decode bs).header) (memory_split b)
      ∙ header-append xs (b ∷ (ys ++ rest)) (a ∷ (ys ++ rest)) in_payload
      ∙ ap (λ bs. (decode bs).header) (sym (memory_split a))
      ∙ ap (λ bs. (decode (bs ++ rest)).header) (sym wire)
      ∙ header-of_sealed p v rest

  checked_bytes : (k : ℕ) → take size (put_checksum 0 (memory k)) ≡ put_checksum 0 xs ++ k ∷ ys
  checked_bytes k =
      ap (λ bs. take size (put_checksum 0 bs)) (memory_split k)
      ∙ ap (take size) (put_checksum-append 0 xs (k ∷ (ys ++ rest)) in_payload)
      ∙ ap (take size) (sym (append_assoc (put_checksum 0 xs) (k ∷ ys) rest))
      ∙ take-append_all (put_checksum 0 xs ++ k ∷ ys) rest size (
          omega (
            arith,
            length-wire_bytes p v rest,
            ap length wire,
            length-append {0} xs (a ∷ ys),
            length-append {0} (put_checksum 0 xs) (k ∷ ys),
            length-put_checksum 0 xs (omega arith),
          ))

  checksum-corrupted :
      ht_calculate_checksum (take size (put_checksum 0 (memory b))) ≢ (seal p).header.checksum
  checksum-corrupted e = checksum_detects (put_checksum 0 xs) ys a b byte byte' differ (
      sym (ap ht_calculate_checksum (checked_bytes a))
      ∙ ap (λ bs. ht_calculate_checksum (take size (put_checksum 0 (bs ++ rest)))) (sym wire)
      ∙ checksum-of_sealed p v rest
      ∙ sym e
      ∙ ap ht_calculate_checksum (checked_bytes b))

  validate-corrupted :
      (d : Conn) (t : Poll)
      → t.buf ≡ memory b
      → ((validate d t).value ≡ minus_one) × ((validate d t).conn ≡ d)
  unfolding validate seal
  validate-corrupted d t at_memory = ground (arith, same_header, other_checksum)
    where
      same_header : (decode t.buf).header ≡ (seal p).header
      same_header = rw at_memory header-corrupted

      corrupted :
          ht_calculate_checksum (take size (put_checksum 0 t.buf)) ≢ (seal p).header.checksum
      corrupted = rw at_memory checksum-corrupted

      room : size ≤ length t.buf
      room = omega (
        arith,
        ap length at_memory,
        ap length (memory_split b),
        length-wire_bytes p v rest,
        ap length wire,
        length-append {0} xs (a ∷ ys),
        length-append {0} xs (b ∷ (ys ++ rest)),
        length-append {0} ys rest,
      )

      other_checksum :
          ht_calculate_checksum (checksummed size (put_checksum 0 t.buf) t.world)
          ≢ (seal p).header.checksum
      other_checksum e = corrupted (
          sym (
            ap ht_calculate_checksum (
              checksummed-within size (put_checksum 0 t.buf) t.world
                (omega (arith, length-put_checksum 0 t.buf, room))))
          ∙ e)

-- For a packet with at most 1350 bytes of payload: if the bytes that it puts on the wire reach an
-- open UDP socket with exactly one byte behind the header replaced by another byte value,
-- `ht_recv_packet` returns -1 and leaves the connection as it was.
pub recv-corrupted :
    (p : Packet) (d : Conn) (buf xs ys : List ℕ) (a b : ℕ) (u : World) (fd : ℕ)
    → IsPacket p
    → p.header.payload_size ≤ ht_max_payload_size
    → wire_bytes (seal p) ≡ xs ++ a ∷ ys
    → sizeof_header ≤ length xs
    → a < 256
    → b < 256
    → a ≢ b
    → d.udp_fd ≡ pos fd
    → (reply (recvfrom d.udp_fd) u).bytes ≡ xs ++ b ∷ ys
    → (reply (recvfrom d.udp_fd) u).ret ≡ pos (length (xs ++ b ∷ ys))
    → ((ht_recv_packet d buf u).value ≡ minus_one) × ((ht_recv_packet d buf u).conn ≡ d)
unfolding ht_recv_packet
recv-corrupted p d buf xs ys a b u fd v small wire in_payload ha hb ne dfd brought count =
    ground
      (arith, polled, validate-corrupted p v xs ys a b wire in_payload ha hb ne rest d t polled.3)
  where
    t : Poll
    t = poll_tcp d (poll_udp d buf u)

    rest : List ℕ
    rest = drop (length (xs ++ b ∷ ys)) buf

    size : length (xs ++ b ∷ ys) ≡ sizeof_header + p.header.payload_size
    size = omega (
      arith,
      length-wire_bytes p v [],
      ap length wire,
      length-append {0} xs (a ∷ ys),
      length-append {0} xs (b ∷ ys),
    )

    polled :
        (t.value ≡ pos (suc (35 + p.header.payload_size)))
        × (t.failed ≡ false)
        × (t.from_tcp ≡ false)
        × (t.buf ≡ (xs ++ b ∷ ys) ++ rest)
        × (t.world.faulted ≡ u.faulted)
    polled =
        poll-datagram d buf (xs ++ b ∷ ys) u fd (35 + p.header.payload_size) dfd
          (count ∙ ap pos (omega (arith, size))) brought (omega (arith, size))
