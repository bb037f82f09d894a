-- ===== src/Tests/Completeness.antt =====
-- src/willow/completeness.py on a small block, with a cut of the input in place of keccak-256.
use willow_sdk_python.Prelude.{
  ℕ, ◌≡◌, ◌⊎◌, ◌↔◌, refl, arith, true, some, List, [], ◌∷◌, Bytes, replicate, take, drop,
}
use willow_sdk_python.Prelude.Result.{ok}
use willow_sdk_python.Hash.Binding.{Collision}
use willow_sdk_python.Completeness.{
  raw, Log, canonical_event_set_hash, to_bytes, topics_bytes, verify_served_events,
}
use willow_sdk_python.Completeness.Encoding.{Event, event_of, events_of}
use willow_sdk_python.Completeness.Complete.{commitment_input, verify_served_events_complete}
use willow_sdk_python.Completeness.Binding.{commitment_binds, verify_served_events_sound}

abbrev cut : Bytes → Bytes
cut b = take 32 (drop 23 b)

abbrev log : Log
log = record {
  address = raw (replicate 20 1);
  topics = raw (replicate 32 2) ∷ [];
  payload = raw (5 ∷ 6 ∷ []);
}

abbrev logs : List Log
logs = log ∷ []

-- Block 7, one log, and the first 16 bytes of its address.
abbrev anchor : Bytes
anchor = 0 ∷ 0 ∷ 0 ∷ 0 ∷ 0 ∷ 0 ∷ 0 ∷ 7 ∷ 0 ∷ 0 ∷ 0 ∷ 0 ∷ 0 ∷ 0 ∷ 0 ∷ 1 ∷ replicate 16 1

committed : canonical_event_set_hash cut 7 logs ≡ ok anchor
unfolding canonical_event_set_hash
committed = refl

anchor_read : to_bytes (raw anchor) (some 32) ≡ ok anchor
unfolding to_bytes
anchor_read = refl

verified : verify_served_events cut (raw anchor) 7 logs ≡ ok true
unfolding verify_served_events
verified = refl

abbrev block : ℕ
block = 7

commitment_binds_example : ((block ≡ 7) × (events_of logs ≡ events_of logs)) ⊎ Collision cut
commitment_binds_example = commitment_binds cut block 7 logs logs committed committed

verify_served_events_sound_example :
    ((block ≡ 7) × (events_of logs ≡ events_of logs)) ⊎ Collision cut
verify_served_events_sound_example =
    verify_served_events_sound cut (raw anchor) anchor 7 block logs logs committed anchor_read
      verified

abbrev event : Event
event = record { address = replicate 20 1; topics = replicate 32 2 ∷ []; payload = 5 ∷ 6 ∷ [] }

events_read : events_of logs ≡ ok (event ∷ [])
unfolding events_of event_of to_bytes topics_bytes
events_read = refl

verify_served_events_complete_example :
    (verify_served_events cut (raw anchor) block logs ≡ ok true)
    ↔ (anchor ≡ cut (commitment_input block (event ∷ [])))
verify_served_events_complete_example =
    verify_served_events_complete cut (raw anchor) anchor block logs (event ∷ []) anchor_read
      events_read (record { topic_count = omega arith; payload_length = omega arith }, tt)
      (omega arith) (omega arith)
