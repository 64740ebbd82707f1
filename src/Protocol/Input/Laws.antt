-- ===== src/Protocol/Input/Laws.antt =====
-- The input packet of input.ts survives the wire, and sequence numbers compare across the wrap.
use sw_itch_remake.Base.{
  ℕ, zero, suc, ◌+◌, ◌%◌, ◌<◌, ◌≡◌, ◌≢◌, ◌↔◌, refl, ◌⊎◌, inl, inr, Bool, true, false, if◌then◌else◌,
  not, List, [], ◌∷◌, arith, All, ◌==◌, length, Bool-cases,
}
use sw_itch_remake.Protocol.Input.{
  InputState, InputDecodeError, bad_length, bad_version, bad_type, ok, err, encode_input,
  decode_input, movement_byte, is_newer_sequence, next_sequence, protocol_version, input_state_type,
  flag, is_set, left_bit, right_bit, up_bit, down_bit,
}

-- What is sent is what is received: the keys are kept, and the two numbers come back in 16 and 8 bits.
pub decode-encode :
    (s : InputState)
    → decode_input (encode_input s)
      ≡ ok (record s { sequence = s.sequence % 65536; held_actions = s.held_actions % 256 })
unfolding decode_input encode_input
decode-encode s = ground arith

-- Two functions give the same on each number below a bound.
agree_to : (ℕ → ℕ) → (ℕ → ℕ) → ℕ → Bool
agree_to f g zero = true
agree_to f g (suc k) = if f k == g k then agree_to f g k else false

agree_at : (f g : ℕ → ℕ) (k m : ℕ) → agree_to f g k ≡ true → m < k → f m ≡ g m
unfolding agree_to
agree_at f g zero m same below = absurd (omega (arith, below))
agree_at f g (suc k) m same below = ground (arith, agree_at f g k m)

-- The movement byte written again from what is read of it.
abbrev rebuilt : ℕ → ℕ
rebuilt m = flag (is_set m down_bit) down_bit (
    flag (is_set m up_bit) up_bit
      (flag (is_set m right_bit) right_bit (flag (is_set m left_bit) left_bit 0)))

rebuilt_lem : (m : ℕ) → m < 256 → rebuilt m ≡ m % 16
unfolding agree_to
rebuilt_lem m h = agree_at rebuilt (λ n. n % 16) 256 m refl h

-- An accepted packet of bytes is exactly six bytes, the version and the type first; and its contents encode
-- to the same packet, with the four movement bits that have no meaning cleared.
pub encode-decode :
    (bytes : List ℕ) (s : InputState)
    → All (λ b. b < 256) bytes
    → decode_input bytes ≡ ok s
    → (low high m held : ℕ) × (bytes
        ≡ protocol_version ∷ input_state_type ∷ low ∷ high ∷ m ∷ held ∷ [])
      × (encode_input s ≡ protocol_version ∷ input_state_type ∷ low ∷ high ∷ (m % 16) ∷ held ∷ [])
unfolding decode_input encode_input movement_byte
encode-decode (v ∷ t ∷ low ∷ high ∷ m ∷ held ∷ []) s a e =
    (low, high, m, held, ground arith, ground (arith, rebuilt_lem m))
encode-decode _ s a e = absurd (ground arith)

-- What is wrong with a packet: its length, or its version, or with this version its type.
abbrev pub IsRefusal : List ℕ → InputDecodeError → Type 0
IsRefusal bytes e =
    ((length bytes ≢ 6) × (e ≡ bad_length (length bytes)))
    ⊎ ((v : ℕ) × (rest : List ℕ) × (length bytes ≡ 6)
        × (bytes ≡ v ∷ rest)
        × (v ≢ protocol_version)
        × (e ≡ bad_version v))
    ⊎ ((t : ℕ) × (rest : List ℕ) × (length bytes ≡ 6)
        × (bytes ≡ protocol_version ∷ t ∷ rest)
        × (t ≢ input_state_type)
        × (e ≡ bad_type t))

refused-IsRefusal :
    (bytes : List ℕ) (e : InputDecodeError) → decode_input bytes ≡ err e → IsRefusal bytes e
unfolding decode_input
refused-IsRefusal (v ∷ t ∷ low ∷ high ∷ m ∷ held ∷ []) e h = elim (Bool-cases (v == 2)) [
  | inl right_version ↦
      inr (inr (t, low ∷ high ∷ m ∷ held ∷ [], refl, ground arith, ground arith, ground arith))
  | inr wrong ↦
      inr (inl (v, t ∷ low ∷ high ∷ m ∷ held ∷ [], refl, refl, ground arith, ground arith))
]
refused-IsRefusal _ e h = inl (ground arith, ground arith)

IsRefusal-refused :
    (bytes : List ℕ) (e : InputDecodeError) → IsRefusal bytes e → decode_input bytes ≡ err e
unfolding decode_input
IsRefusal-refused (v ∷ t ∷ low ∷ high ∷ m ∷ held ∷ []) e (inl (other, what)) = absurd (other refl)
IsRefusal-refused (v ∷ t ∷ low ∷ high ∷ m ∷ held ∷ []) e
      (inr (inl (w, rest, six, eq, other, what))) =
    ground arith
IsRefusal-refused (v ∷ t ∷ low ∷ high ∷ m ∷ held ∷ []) e
      (inr (inr (w, rest, six, eq, other, what))) =
    ground arith
IsRefusal-refused _ e h = ground arith

-- A packet is refused exactly when its length is not six, or it has six bytes and begins with another version, or
-- it has six bytes and begins with this version and another type; and the error is of that kind and carries the
-- length, version or type.
pub decode_input_err :
    (bytes : List ℕ) (e : InputDecodeError) → (decode_input bytes ≡ err e) ↔ IsRefusal bytes e
decode_input_err bytes e = (refused-IsRefusal bytes e, IsRefusal-refused bytes e)

-- Across the wrap a number is newer than another exactly when it is 1 to 32767 steps ahead of it.
pub is_newer-ahead :
    (a k : ℕ)
    → a < 65536
    → k < 65536
    → (is_newer_sequence ((a + k) % 65536) a ≡ true) ↔ ((0 < k) × (k < 32768))
unfolding is_newer_sequence
is_newer-ahead a k h l = ground arith

-- Of two different numbers that are not half the range apart, exactly one is the newer one.
pub is_newer_asymmetric :
    (a b : ℕ)
    → a < 65536
    → b < 65536
    → a ≢ b
    → (a + 32768) % 65536 ≢ b
    → is_newer_sequence a b ≡ not (is_newer_sequence b a)
unfolding is_newer_sequence
is_newer_asymmetric a b h k ne half = ground arith

-- The next number is always newer, and again a 16-bit number.
pub is_newer-next :
    (a : ℕ) → a < 65536 → (is_newer_sequence (next_sequence a) a ≡ true) × (next_sequence a < 65536)
unfolding is_newer_sequence next_sequence
is_newer-next a h = ground arith
