-- ===== src/WebSocket/Frame/Bits.antt =====
-- The parts of the first two header bytes, as quotients and remainders.
use Prim.Native.Nat.{bit_and, bit_or}
use httpuv.Base.{
  ℕ, ◌+◌, ◌*◌, ◌/◌, ◌%◌, ◌<◌, ◌≡◌, refl, Bool, true, false, ◌∷◌, Bytes, ◌==◌, holds_below, holds_at,
  ==_iff, if◌then◌else◌,
}
use httpuv.WebSocket.Proto.{WebSocketProto}
use httpuv.WebSocket.Frame.{WsHyBiFrameHeader, read}

agree_below :
    (n : ℕ) (f g : ℕ → ℕ) (x : ℕ) → holds_below n (λ i. f i == g i) ≡ true → x < n → f x ≡ g x
agree_below n f g x h lt = (==_iff (f x) (g x)).0 (holds_at n (λ i. f i == g i) x h lt)

pub bit_or_first : (t o : ℕ) → t < 2 → o < 16 → bit_or (t * 128) o ≡ t * 128 + o
unfolding holds_below
bit_or_first t o ht ho = (==_iff _ _).0 (
    holds_at 16 (λ o. bit_or (t * 128) o == t * 128 + o) o
      (holds_at 2 (λ t. holds_below 16 (λ o. bit_or (t * 128) o == t * 128 + o)) t refl ht) ho)

pub bit_or_second :
    (m : Bool) (n : ℕ) → n < 128 → bit_or (if m then 128 else 0) n ≡ (if m then 128 else 0) + n
unfolding holds_below
bit_or_second true n h = agree_below 128 (λ n. bit_or 128 n) (λ n. 128 + n) n refl h
bit_or_second false n h = agree_below 128 (λ n. bit_or 0 n) (λ n. 0 + n) n refl h

module _ (proto : WebSocketProto) (a b : ℕ) (r : Bytes) where
  abbrev frame : WsHyBiFrameHeader
  frame = record { proto = proto; content = a ∷ b ∷ r }

  pub read_fin : a < 256 → read frame 0 1 ≡ a / 128
  unfolding read holds_below
  read_fin h = agree_below 256 (λ a. bit_and a 128 / 128) (λ a. a / 128) a refl h

  pub read_opcode : a < 256 → read frame 4 4 ≡ a % 16
  unfolding read holds_below
  read_opcode h = agree_below 256 (λ a. bit_and a 15 / 1) (λ a. a % 16) a refl h

  pub read_mask : b < 256 → read frame 8 1 ≡ b / 128
  unfolding read holds_below
  read_mask h = agree_below 256 (λ b. bit_and b 128 / 128) (λ b. b / 128) b refl h

  pub read_length : b < 256 → read frame 9 7 ≡ b % 128
  unfolding read holds_below
  read_length h = agree_below 256 (λ b. bit_and b 127 / 1) (λ b. b % 128) b refl h

pub and_byte : (x : ℕ) → x < 256 → bit_and x 255 / 1 ≡ x
unfolding holds_below
and_byte x h = agree_below 256 (λ x. bit_and x 255 / 1) (λ x. x) x refl h

-- The opcode stands in the first byte.
pub read_opcode_first :
    (proto : WebSocketProto) (a : ℕ) (r : Bytes)
    → a < 256
    → read (record { proto = proto; content = a ∷ r }) 4 4 ≡ a % 16
unfolding read holds_below
read_opcode_first proto a r h = agree_below 256 (λ a. bit_and a 15 / 1) (λ a. a % 16) a refl h
