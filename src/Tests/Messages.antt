-- ===== src/Tests/Messages.antt =====
-- Runs of the frames, the greeting and the budget.
use paritr_node.Prelude.{
  ℕ, ◌+◌, ◌≡◌, ◌≤◌, refl, true, false, arith, ◌&&◌, leb, any, length, replicate, none, List, [],
  ◌∷◌, ok,
}
use paritr_node.Codec.{Bytes, IsBytes}
use paritr_node.Crypto.{zero_hash}
use paritr_node.Network.Hello.{ChainSnapshot, signed, verify}
use paritr_node.Network.WireMessage.{
  WireMessage, hello, ping, transaction, encode_frame, decode_frame, max_wire_frame,
}
use paritr_node.Network.Budget.{allow, after, new, heavies, heaviness, allow_exact}
use paritr_node.Network.Frames.{frame_round_trip}
use paritr_node.Network.Canonical.{frame_canonical}
use paritr_node.Network.Handshake.{SignsFor, greeting_accepted}
use paritr_node.Tests.Sample.{toy, payment, alice_key}
use paritr_node.Tests.Wires.{IsBytes-of_test, toy-HasDigests, payment-IsWireTransaction}

frame_round_trip_example :
    (length (encode_frame (transaction payment)) ≤ max_wire_frame)
    × (decode_frame (encode_frame (transaction payment)) ≡ ok (transaction payment))
frame_round_trip_example = frame_round_trip (transaction payment) payment-IsWireTransaction

abbrev ping_frame : Bytes
ping_frame = encode_frame (ping 300)

ping_frame_test : any (leb 256) ping_frame ≡ false
unfolding encode_frame paritr_node.Codec.to_le_bytes
ping_frame_test = refl

frame_canonical_example : ping_frame ≡ encode_frame (ping 300)
frame_canonical_example =
    frame_canonical ping_frame (ping 300) (IsBytes-of_test ping_frame ping_frame_test)
      (frame_round_trip (ping 300) (omega arith)).1

abbrev sign : Bytes → Bytes
sign digest = replicate 64 7

sign-SignsFor : SignsFor sign alice_key
sign-SignsFor = record {
  key = alice_key;
  key_width = refl;
  key_parses = refl;
  signature = sign;
  signature_width = λ digest. refl;
  signature_parses = λ digest. refl;
  verifies = λ digest. refl;
}

abbrev snapshot : ChainSnapshot
snapshot = record { height = 7; tip = zero_hash; cumulative_work = none }

abbrev greeting : WireMessage
greeting = hello (signed sign alice_key zero_hash 1_000 snapshot [] zero_hash)

greeting_accepted_example :
    (decode_frame (encode_frame greeting) ≡ ok greeting)
    × (verify (signed sign alice_key zero_hash 1_000 snapshot [] zero_hash) 1_300 ≡ true)
unfolding paritr_node.Codec.Text.is_utf8
greeting_accepted_example =
    greeting_accepted sign alice_key zero_hash zero_hash 1_000 snapshot [] 1_300 sign-SignsFor
      toy-HasDigests refl refl (omega arith) (omega arith) refl
      (record { utf8 = refl; size = omega arith }) (omega arith)

abbrev two_messages : List (ℕ × WireMessage)
two_messages = (1_000, ping 1) ∷ (2_000, transaction payment) ∷ []

allow_exact_example : (allow (after (new 0) two_messages) 3_000 (transaction payment)).1 ≡ (
    leb (length two_messages + 1) 1_000
    && leb (heavies two_messages + heaviness (transaction payment)) 200)
allow_exact_example =
    allow_exact 0 3_000 two_messages (transaction payment) (omega arith) (omega arith) (omega arith)
