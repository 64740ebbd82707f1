-- ===== src/Protocol/Input.antt =====
-- shared/src/protocol/input.ts. A buffer is the list of its bytes, each below 256.
pub mod Laws
use Prim.Native.Nat.{bit_and, bit_or}
use sw_itch_remake.Base.{
  ℕ, ◌+◌, ◌-◌, ◌*◌, ◌/◌, ◌%◌, Bool, true, false, ◌&&◌, not, List, [], ◌∷◌, ltb, ◌==◌, if◌then◌else◌,
  length,
}
use sw_itch_remake.Base.Int.{ℤ, pos, negsuc}

abbrev pub protocol_version : ℕ
protocol_version = 2

abbrev pub input_state_type : ℕ
input_state_type = 0x01

abbrev pub input_packet_bytes : ℕ
input_packet_bytes = 6

-- `MovementBits`.
abbrev pub left_bit : ℕ
left_bit = 0x01

abbrev pub right_bit : ℕ
right_bit = 0x02

abbrev pub up_bit : ℕ
up_bit = 0x04

abbrev pub down_bit : ℕ
down_bit = 0x08

pub record InputState : Type 0 where
  pub sequence : ℕ
  pub left : Bool
  pub right : Bool
  pub up : Bool
  pub down : Bool
  pub held_actions : ℕ

pub data InputDecodeError : Type 0 where
  bad_length bad_version bad_type : ℕ → InputDecodeError

pub data Decoded : Type 0 where
  ok : InputState → Decoded
  err : InputDecodeError → Decoded

abbrev pub flag : Bool → ℕ → ℕ → ℕ
flag b bit movement = if b then bit_or movement bit else movement

unfoldable pub movement_byte : InputState → ℕ
movement_byte s =
    flag s.down down_bit (flag s.up up_bit (flag s.right right_bit (flag s.left left_bit 0)))

-- `view.setUint16(_, v, true)` and `getUint16`: little endian.
abbrev pub u16_bytes : ℕ → List ℕ
u16_bytes v = (v % 256) ∷ (v / 256 % 256) ∷ []

unfoldable pub encode_input : InputState → List ℕ
unfolding movement_byte
encode_input s =
    protocol_version
    ∷ input_state_type
    ∷ (s.sequence % 65536 % 256)
    ∷ (s.sequence % 65536 / 256)
    ∷ movement_byte s
    ∷ (s.held_actions % 256)
    ∷ []

abbrev pub is_set : ℕ → ℕ → Bool
is_set movement bit = not (bit_and movement bit == 0)

unfoldable pub decode_input : List ℕ → Decoded
decode_input (version ∷ type ∷ low ∷ high ∷ movement ∷ held ∷ []) =
    if not (version == protocol_version)
    then err (bad_version version)
    else if not (type == input_state_type)
    then err (bad_type type)
    else ok (record {
      sequence = low + 256 * high;
      left = is_set movement left_bit;
      right = is_set movement right_bit;
      up = is_set movement up_bit;
      down = is_set movement down_bit;
      held_actions = held;
    })
decode_input bytes = err (bad_length (length bytes))

-- The sign of an axis: one key pressed and not the other.
abbrev pub axis : Bool → Bool → ℤ
axis true false = pos 1
axis false true = negsuc 0
axis _ _ = pos 0

abbrev pub is_zero : ℤ → Bool
is_zero (pos n) = n == 0
is_zero (negsuc n) = false

-- The vector, with the diagonal factor `Math.SQRT1_2` as a mark: there are no floats here.
pub record MovementVector : Type 0 where
  pub x : ℤ
  pub y : ℤ
  pub scaled : Bool

unfoldable pub movement_vector : InputState → MovementVector
movement_vector s =
    let x = axis s.right s.left in
    let y = axis s.down s.up in record { x = x; y = y; scaled = not (is_zero x) && not (is_zero y) }

-- `(a - b) & 0xffff`, on naturals.
abbrev pub difference : ℕ → ℕ → ℕ
difference a b = (a + (65536 - b % 65536)) % 65536

-- `(d << 16) >> 16` reads the 16 bits as signed.
unfoldable pub compare_sequence : ℕ → ℕ → ℤ
compare_sequence a b = let d = difference a b in if ltb d 32768 then pos d else negsuc (65535 - d)

abbrev pub is_positive : ℤ → Bool
is_positive (pos n) = ltb 0 n
is_positive (negsuc n) = false

unfoldable pub is_newer_sequence : ℕ → ℕ → Bool
unfolding compare_sequence
is_newer_sequence a b = is_positive (compare_sequence a b)

unfoldable pub next_sequence : ℕ → ℕ
next_sequence current = (current + 1) % 65536
