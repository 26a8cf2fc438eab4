-- ===== src/Packet/Flags.antt =====
-- The flag byte of tou_header.cpp holds the eight flags, and they come back from it.
use tcpoudp.Prelude.{
  ℕ, zero, suc, ◌<◌, ◌≡◌, refl, Bool, true, false, ◌&&◌, arith, if◌then◌else◌, ◌==◌, ==_iff,
}
use tcpoudp.Packet.{Header, flag_byte, set_flags, set_bit, has_bit}

every : (Bool → Bool) → Bool
every f = f true && f false

every_sound : (f : Bool → Bool) → every f ≡ true → (b : Bool) → f b ≡ true
unfolding every
every_sound f h true = ground arith
every_sound f h false = ground arith

-- The eight flags, the highest bit first.
abbrev Eight : Type 0 → Type 0
Eight A = Bool → Bool → Bool → Bool → Bool → Bool → Bool → Bool → A

every8 : Eight Bool → Bool
every8 p = every λ a.
    every λ b. every λ c. every λ d. every λ e. every λ f. every λ g. every λ i. p a b c d e f g i

every8_sound :
    (p : Eight Bool) → every8 p ≡ true → (a b c d e f g i : Bool) → p a b c d e f g i ≡ true
unfolding every8
every8_sound p h a b c d e f g i =
    every_sound _
      (every_sound _
        (every_sound _
          (every_sound _ (every_sound _ (every_sound _ (every_sound _ (every_sound _ h a) b) c) d)
            e)
          f)
        g)
      i

eqb : Bool → Bool → Bool
eqb true b = b
eqb false true = false
eqb false false = true

eqb_sound : (a b : Bool) → eqb a b ≡ true → a ≡ b
unfolding eqb
eqb_sound a b h = ground arith

abbrev byte_of : Eight ℕ
byte_of a b c d e f g i = set_bit i 0x01 (
    set_bit g 0x02 (
      set_bit f 0x04
        (set_bit e 0x08 (set_bit d 0x10 (set_bit c 0x20 (set_bit b 0x40 (set_bit a 0x80 0)))))))

module _ (k : Header) where
  -- A flag read back from the byte, by a table of all settings.
  read_flag :
      (mask : ℕ) (pick : Eight Bool)
      → every8
          (λ a b c d e f g i. eqb (has_bit (byte_of a b c d e f g i) mask) (pick a b c d e f g i))
        ≡ true
      → has_bit (flag_byte k) mask ≡ pick k.res k.cwr k.ece k.ack k.psh k.rst k.syn k.fin
  unfolding flag_byte
  read_flag mask pick table =
      eqb_sound _ _ (every8_sound _ table k.res k.cwr k.ece k.ack k.psh k.rst k.syn k.fin)

  -- The flags of `k`, read back into any header.
  pub set_flags-flag_byte :
      (h : Header)
      → set_flags h (flag_byte k) ≡ record h {
        res = k.res;
        cwr = k.cwr;
        ece = k.ece;
        ack = k.ack;
        psh = k.psh;
        rst = k.rst;
        syn = k.syn;
        fin = k.fin;
      }
  unfolding set_flags every8 every eqb
  set_flags-flag_byte h = λ l. record h {
    res = read_flag 0x80 (λ a b c d e f g i. a) refl l;
    cwr = read_flag 0x40 (λ a b c d e f g i. b) refl l;
    ece = read_flag 0x20 (λ a b c d e f g i. c) refl l;
    ack = read_flag 0x10 (λ a b c d e f g i. d) refl l;
    psh = read_flag 0x08 (λ a b c d e f g i. e) refl l;
    rst = read_flag 0x04 (λ a b c d e f g i. f) refl l;
    syn = read_flag 0x02 (λ a b c d e f g i. g) refl l;
    fin = read_flag 0x01 (λ a b c d e f g i. i) refl l;
  }

-- A test of every number under a bound.
passes_under : (ℕ → Bool) → ℕ → Bool
passes_under test zero = true
passes_under test (suc bound) = if test bound then passes_under test bound else false

passes_under_lem :
    (test : ℕ → Bool) (bound k : ℕ) → k < bound → passes_under test bound ≡ true → test k ≡ true
unfolding passes_under
passes_under_lem test zero k below e = absurd (omega arith)
passes_under_lem test (suc bound) k below e = ground (arith, passes_under_lem test bound k)

every_byte : (h : Header) → passes_under (λ x. flag_byte (set_flags h x) == x) 256 ≡ true
unfolding passes_under flag_byte set_flags
every_byte h = refl

-- Every byte is the flag byte of the flags read from it.
pub flag_byte-set_flags : (h : Header) (x : ℕ) → x < 256 → flag_byte (set_flags h x) ≡ x
flag_byte-set_flags h x small =
    (==_iff (flag_byte (set_flags h x)) x).0 (passes_under_lem _ 256 x small (every_byte h))
