-- ===== src/Protocol/Tests.antt =====
-- Runs and instances of shared/src/protocol.
use sw_itch_remake.Base.{ℕ, ◌%◌, ◌↔◌, ◌≤◌, ◌≡◌, refl, true, false, some, List, [], ◌∷◌, arith}
use sw_itch_remake.Base.Int.{pos, negsuc}
use sw_itch_remake.Protocol.Input.{
  InputState, ok, err, bad_version, encode_input, decode_input, is_newer_sequence, compare_sequence,
  protocol_version, input_state_type,
}
use sw_itch_remake.Protocol.Input.Laws.{decode-encode, encode-decode, decode_input_err, IsRefusal}
use sw_itch_remake.Protocol.Progression.{MatchXpInput, match_xp, level_from_xp, climb}
use sw_itch_remake.Protocol.Progression.Laws.{Climbed, level_from_xp-Climbed, match_xp_mono}

abbrev left_up : InputState
left_up = record {
  sequence = 70_000;
  left = true;
  right = false;
  up = true;
  down = false;
  held_actions = 3;
}

decode-encode_example :
    decode_input (encode_input left_up)
    ≡ ok (record left_up { sequence = 70_000 % 65536; held_actions = 3 % 256 })
decode-encode_example = decode-encode left_up

abbrev packet : List ℕ
packet = 2 ∷ 1 ∷ 112 ∷ 17 ∷ 21 ∷ 3 ∷ []

abbrev unpacked : InputState
unpacked = record {
  sequence = 4464;
  left = true;
  right = false;
  up = true;
  down = false;
  held_actions = 3;
}

packet-decoded : decode_input packet ≡ ok unpacked
unfolding decode_input
packet-decoded = refl

encode-decode_example :
    (low high m held : ℕ) × (packet
      ≡ protocol_version ∷ input_state_type ∷ low ∷ high ∷ m ∷ held ∷ [])
    × (encode_input unpacked
        ≡ protocol_version ∷ input_state_type ∷ low ∷ high ∷ (m % 16) ∷ held ∷ [])
encode-decode_example = encode-decode packet unpacked (omega arith) packet-decoded

abbrev old_packet : List ℕ
old_packet = 1 ∷ 1 ∷ 0 ∷ 0 ∷ 0 ∷ 0 ∷ []

old_packet-refused : decode_input old_packet ≡ err (bad_version 1)
unfolding decode_input
old_packet-refused = refl

decode_input_err_example :
    (decode_input old_packet ≡ err (bad_version 1)) ↔ IsRefusal old_packet (bad_version 1)
decode_input_err_example = decode_input_err old_packet (bad_version 1)

wrap_is_newer : is_newer_sequence 4 65_530 ≡ true
unfolding is_newer_sequence compare_sequence
wrap_is_newer = refl

level_from_xp-Climbed_example : Climbed 260 (level_from_xp (some (pos 260)))
level_from_xp-Climbed_example = level_from_xp-Climbed (some (pos 260))

level_of_260 : (level_from_xp (some (pos 260))).level ≡ 3
unfolding level_from_xp climb
level_of_260 = refl

abbrev long_loss : MatchXpInput
long_loss = record {
  won = false;
  tag_count = pos 2;
  switch_success = negsuc 0;
  survived_ms = some (pos 900_000);
}

abbrev long_win : MatchXpInput
long_win = record {
  won = true;
  tag_count = pos 2;
  switch_success = pos 1;
  survived_ms = some (pos 900_000);
}

match_xp_mono_example : match_xp long_loss ≤ match_xp long_win
match_xp_mono_example =
    match_xp_mono long_loss long_win (λ e. refl) (omega arith) (omega arith) (omega arith)
