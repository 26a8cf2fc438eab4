-- ===== src/Packet/RoundTrip.antt =====
-- Printing and parsing a packet of tou_header.cpp, in both orders.
use tcpoudp.Prelude.{
  ℕ, ◌+◌, ◌-◌, ◌*◌, ◌/◌, ◌%◌, ◌≤◌, ◌<◌, ◌≡◌, refl, ap, ◌∙◌, some, List, [], ◌∷◌, arith, length,
  take, set, word, short_word, take_all, ltb, if◌then◌else◌,
}
use tcpoudp.Packet.{
  Header, Packet, header_size, to_string, parsed, parse, word2_at, word4_at, flag_byte, set_flags,
  offset_byte,
}
use tcpoudp.Packet.Flags.{set_flags-flag_byte, flag_byte-set_flags}

-- Every number fits its field, and `buflen` is the length of the payload.
pub record IsWellFormed (p : Packet) : Type 0 where
  pub seq_fits : p.t.seq < word
  pub mag_fits : p.t.mag < word
  pub ack_fits : p.t.ack_seq < word
  pub window_fits : p.t.window < short_word
  pub whole : p.buflen ≡ length p.buf

le4_lem :
    (n : ℕ)
    → n < word
    → n % 256 + 256 * (n / 256 % 256) + 65536 * (n / 65536 % 256 + 256 * (n / 16777216 % 256)) ≡ n
le4_lem n h = omega arith

le2_lem : (n : ℕ) → n < short_word → n % 256 + 256 * (n / 256 % 256) ≡ n
le2_lem n h = omega arith

payload-printed :
    (n : ℕ) (xs : List ℕ) → n ≡ length xs → (if ltb 0 (length xs) then take n xs else []) ≡ xs
payload-printed n [] e = refl
payload-printed n (x ∷ xs) e = ground (arith, take_all n (x ∷ xs))

pub parse_long :
    (h : Header) (content : List ℕ)
    → header_size ≤ length content
    → parse h content ≡ some (parsed h content)
unfolding parse
parse_long h content l = ground arith

parsed-to_string :
    (h : Header) (p : Packet)
    → IsWellFormed p
    → parsed h (to_string p) ≡ record p { t = record p.t { doff = h.doff; dres = h.dres } }
unfolding parsed to_string
parsed-to_string h p w = λ i. record { t = header i; buf = rest i; buflen = count i }
  where
    rest : (if ltb 0 (length p.buf) then take p.buflen p.buf else []) ≡ p.buf
    rest = payload-printed p.buflen p.buf w.whole

    count : length (to_string p) - header_size ≡ p.buflen
    count = omega (arith, ap length rest, w.whole)

    fields : (q : Header) → Header
    fields q = record h {
      seq = word4_at (to_string p) 0;
      mag = word4_at (to_string p) 4;
      ack_seq = word4_at (to_string p) 8;
      window = word2_at (to_string p) 14;
    }

    header : set_flags (fields h) (flag_byte p.t) ≡ record p.t { doff = h.doff; dres = h.dres }
    header = set_flags-flag_byte p.t (fields h) ∙ (λ i. record p.t {
      seq = le4_lem p.t.seq w.seq_fits i;
      mag = le4_lem p.t.mag w.mag_fits i;
      ack_seq = le4_lem p.t.ack_seq w.ack_fits i;
      window = le2_lem p.t.window w.window_fits i;
      doff = h.doff;
      dres = h.dres;
    })

-- A well-formed packet that is printed and parsed comes back whole, but for the data offset and the
-- reserved bits, which keep what the memory held.
pub parse-to_string :
    (h : Header) (p : Packet)
    → IsWellFormed p
    → parse h (to_string p) ≡ some (record p { t = record p.t { doff = h.doff; dres = h.dres } })
unfolding to_string
parse-to_string h p w = parse_long h (to_string p) (omega arith) ∙ ap some (parsed-to_string h p w)

-- Every number is a byte.
abbrev pub AllBytes : List ℕ → Type 0
AllBytes [] = Unit {0}
AllBytes (x ∷ xs) = (x < 256) × AllBytes xs

-- The four bytes of the word that four bytes make.
abbrev Bytes4 : ℕ → ℕ → ℕ → ℕ → Type 0
Bytes4 a b c d =
    let n : ℕ = a + 256 * b + 65536 * (c + 256 * d) in
    (n % 256 ≡ a) × (n / 256 % 256 ≡ b) × (n / 65536 % 256 ≡ c) × (n / 16777216 % 256 ≡ d)

bytes4 : (a b c d : ℕ) → (a < 256) × (b < 256) × (c < 256) × (d < 256) → Bytes4 a b c d
bytes4 a b c d h = omega arith

-- A datagram of at least sixteen bytes that is parsed and printed comes back but for the byte of the
-- data offset.
pub to_string-parsed :
    (h : Header) (content : List ℕ)
    → header_size ≤ length content
    → AllBytes content
    → to_string (parsed h content) ≡ set content 12 (offset_byte h)
unfolding to_string parsed set_flags offset_byte
to_string-parsed h (a ∷ b ∷ c ∷ d ∷ e ∷ f ∷ g ∷ i ∷ j ∷ k ∷ l ∷ m ∷ n ∷ o ∷ p ∷ q ∷ rest) s w = λ z.
    seq.0 z
    ∷ seq.1 z
    ∷ seq.2 z
    ∷ seq.3 z
    ∷ mag.0 z
    ∷ mag.1 z
    ∷ mag.2 z
    ∷ mag.3 z
    ∷ ack.0 z
    ∷ ack.1 z
    ∷ ack.2 z
    ∷ ack.3 z
    ∷ offset_byte h
    ∷ flags z
    ∷ window.0 z
    ∷ window.1 z
    ∷ payload z
  where
    seq : Bytes4 a b c d
    seq = bytes4 a b c d (omega arith)

    mag : Bytes4 e f g i
    mag = bytes4 e f g i (omega arith)

    ack : Bytes4 j k l m
    ack = bytes4 j k l m (omega arith)

    window : ((p + 256 * q) % 256 ≡ p) × ((p + 256 * q) / 256 % 256 ≡ q)
    window = omega arith

    fields : Header
    fields = record h {
      seq = a + 256 * b + 65536 * (c + 256 * d);
      mag = e + 256 * f + 65536 * (g + 256 * i);
      ack_seq = j + 256 * k + 65536 * (l + 256 * m);
      window = p + 256 * q;
    }

    flags : flag_byte (set_flags fields o) ≡ o
    flags = flag_byte-set_flags fields o (omega arith)

    payload :
        (if ltb 0 (length rest)
          then take
              (length (a ∷ b ∷ c ∷ d ∷ e ∷ f ∷ g ∷ i ∷ j ∷ k ∷ l ∷ m ∷ n ∷ o ∷ p ∷ q ∷ rest)
                - header_size)
              rest
          else [])
        ≡ rest
    payload = payload-printed _ rest (omega arith)
to_string-parsed h _ s w = absurd (omega arith)
