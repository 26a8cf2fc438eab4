-- ===== src/Packet.antt =====
-- The packets of src/lib/tou_header.h and tou_header.cpp: the header's fields, the payload, and the
-- bytes on the wire. A byte is a number below 256; the words are little-endian as on the target.
pub mod Flags
pub mod RoundTrip
mod Tests
use tcpoudp.Prelude.{
  ℕ, ◌+◌, ◌-◌, ◌*◌, ◌/◌, ◌%◌, Bool, true, false, Option, none, some, List, [], ◌∷◌, ◌++◌, length,
  get_or, take, drop, replicate, ltb, leb, ◌==◌, if◌then◌else◌,
}
use Prim.Native.Nat.{bit_and, bit_or}

-- `class touHeader`; the one-bit fields are Booleans.
pub record Header : Type 0 where
  pub seq : ℕ
  pub mag : ℕ
  pub ack_seq : ℕ
  pub doff : ℕ
  pub dres : ℕ
  pub res : Bool
  pub cwr : Bool
  pub ece : Bool
  pub ack : Bool
  pub psh : Bool
  pub rst : Bool
  pub syn : Bool
  pub fin : Bool
  pub window : ℕ

-- `class touPkg`
pub record Packet : Type 0 where
  pub t : Header
  pub buf : List ℕ
  pub buflen : ℕ

abbrev pub magic : ℕ
magic = 0x7194b32e

-- The length of the header on the wire.
abbrev pub header_size : ℕ
header_size = 16

unfoldable pub clear_flag : Header → Header
clear_flag h = record h {
  doff = 0;
  dres = 0;
  res = false;
  cwr = false;
  ece = false;
  ack = false;
  psh = false;
  rst = false;
  syn = false;
  fin = false;
}

-- The constructors. `h` is what the memory of the header holds before: they set the flags alone.
unfoldable pub new_sized : Header → ℕ → Packet
unfolding clear_flag
new_sized h n = record { t = clear_flag h; buf = replicate n 0; buflen = n }

unfoldable pub new_packet : Header → List ℕ → Packet
unfolding clear_flag
new_packet h payload = record { t = clear_flag h; buf = payload; buflen = length payload }

-- The copy constructor.
unfoldable pub copy : Packet → Packet
copy p = record { t = p.t; buf = take p.buflen p.buf; buflen = p.buflen }

unfoldable pub put_header_seq : Packet → ℕ → ℕ → Packet
put_header_seq p seq ack_seq = record p {
  t = record p.t { seq = seq; ack_seq = ack_seq; mag = magic };
}

unfoldable pub clean : Packet → Packet
unfolding clear_flag
clean p = record {
  t = record (clear_flag p.t) { seq = 0; mag = magic; ack_seq = 0; window = 0 };
  buf = [];
  buflen = 0;
}

-- `setBuf`, which leaves `buflen` as it was.
unfoldable pub set_buf : Packet → List ℕ → Packet
set_buf p s = record p { buf = s }

abbrev pub le2 : ℕ → List ℕ
le2 n = n % 256 ∷ n / 256 % 256 ∷ []

abbrev pub le4 : ℕ → List ℕ
le4 n = n % 256 ∷ n / 256 % 256 ∷ n / 65536 % 256 ∷ n / 16777216 % 256 ∷ []

abbrev pub word2_at : List ℕ → ℕ → ℕ
word2_at xs p = get_or xs p 0 + 256 * get_or xs (p + 1) 0

abbrev pub word4_at : List ℕ → ℕ → ℕ
word4_at xs p = word2_at xs p + 65536 * word2_at xs (p + 2)

abbrev pub set_bit : Bool → ℕ → ℕ → ℕ
set_bit b mask x = if b then bit_or x mask else x

-- Byte 13.
unfoldable pub flag_byte : Header → ℕ
flag_byte h = set_bit h.fin 0x01 (
    set_bit h.syn 0x02 (
      set_bit h.rst 0x04 (
        set_bit h.psh 0x08
          (set_bit h.ack 0x10 (set_bit h.ece 0x20 (set_bit h.cwr 0x40 (set_bit h.res 0x80 0)))))))

abbrev pub has_bit : ℕ → ℕ → Bool
has_bit x mask = bit_and x mask == mask

unfoldable pub set_flags : Header → ℕ → Header
set_flags h x = record h {
  res = has_bit x 0x80;
  cwr = has_bit x 0x40;
  ece = has_bit x 0x20;
  ack = has_bit x 0x10;
  psh = has_bit x 0x08;
  rst = has_bit x 0x04;
  syn = has_bit x 0x02;
  fin = has_bit x 0x01;
}

-- Byte 12: `&` binds tighter than `|`.
unfoldable pub offset_byte : Header → ℕ
offset_byte h = bit_or (h.doff * 16) (bit_and h.dres 0x11) % 256

unfoldable pub to_string : Packet → List ℕ
to_string p =
    le4 p.t.seq
    ++ le4 p.t.mag
    ++ le4 p.t.ack_seq
    ++ (offset_byte p.t ∷ flag_byte p.t ∷ le2 p.t.window)
    ++ (if ltb 0 (length p.buf) then take p.buflen p.buf else [])

-- What the constructor from bytes reads, byte 12 excepted: it keeps the data offset and the
-- reserved bits that the memory of the header held before.
unfoldable pub parsed : Header → List ℕ → Packet
parsed h content = record {
  t =
      set_flags
        (record h {
          seq = word4_at content 0;
          mag = word4_at content 4;
          ack_seq = word4_at content 8;
          window = word2_at content 14;
        })
        (get_or content 13 0);
  buf = drop header_size content;
  buflen = length content - header_size;
}

-- The constructor from bytes. `h` is what the memory of the header holds before. `none` is the read
-- past the end of a text shorter than a header.
unfoldable pub parse : Header → List ℕ → Option Packet
parse h content = if ltb (length content) header_size then none else some (parsed h content)

unfoldable pub get_seq : Packet → ℕ
get_seq p = p.t.seq

unfoldable pub get_ackseq : Packet → ℕ
get_ackseq p = p.t.ack_seq
