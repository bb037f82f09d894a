-- ===== src/Completeness/Complete.antt =====
-- src/willow/completeness.py: the commitment of the logs that it can read, by the layout that its
-- documentation lists.
use willow_sdk_python.Prelude.{
  ℕ, suc, ◌^◌, ◌<◌, ◌≡◌, refl, ap, sym, subst, arith, true, false, ◌↔◌, none, some, List, [], ◌∷◌,
  ◌++◌, Bytes, length, All, leb, bytes_eq_iff,
}
use willow_sdk_python.Prelude.Words.{to_big}
use willow_sdk_python.Prelude.Result.{ok, >>=-eq-ok, ok-injective}
use willow_sdk_python.Completeness.{
  HexOrBytes, Log, to_bytes, topics_bytes, to_bytes_big, canonical_bytes, logs_bytes, domain_tag,
  preimage, canonical_event_set_hash, verify_served_events,
}
use willow_sdk_python.Completeness.Encoding.{Event, event_of, events_of, layout, layouts}

-- An event's counts fit four bytes.
pub record CountsFit (e : Event) : Type 0 where
  pub topic_count : length e.topics < 256 ^ 4
  pub payload_length : length e.payload < 256 ^ 4

-- The bytes that the commitment is the hash of: the tag, the block's number, how many events there are,
-- and the events.
abbrev pub commitment_input : ℕ → List Event → Bytes
commitment_input block events =
    domain_tag ++ (to_big 8 block ++ (to_big 8 (length events) ++ layouts events))

to_bytes_big-ok : (width n : ℕ) → n < 256 ^ width → to_bytes_big width n ≡ ok (to_big width n)
unfolding to_bytes_big
to_bytes_big-ok width n h = ground arith

canonical_bytes-layout :
    (log : Log) (e : Event)
    → event_of log ≡ ok e
    → CountsFit e
    → canonical_bytes log ≡ ok (layout e)
unfolding canonical_bytes event_of layout
canonical_bytes-layout log e read fits =
    let (address, r1, e1) = >>=-eq-ok (to_bytes log.address (some 20)) _ read in
    let (topics, r2, e2) = >>=-eq-ok (topics_bytes log.topics) _ e1 in
    let (payload, r3, e3) = >>=-eq-ok (to_bytes log.payload none) _ e2 in
    let same : record { address = address; topics = topics; payload = payload } ≡ e =
      ok-injective e3 in
    let fit = subst CountsFit (sym same) fits in
    rw
      (
        r1,
        r2,
        r3,
        to_bytes_big-ok 4 (length topics) fit.topic_count,
        to_bytes_big-ok 4 (length payload) fit.payload_length,
      )
      (ap (λ (x : Event). ok (layout x)) same)

logs_bytes-layouts :
    (logs : List Log) (events : List Event)
    → events_of logs ≡ ok events
    → All CountsFit events
    → (logs_bytes logs ≡ ok (layouts events)) × (length logs ≡ length events)
unfolding logs_bytes events_of layouts
logs_bytes-layouts [] events read fits = rw (← ok-injective read) (refl, refl)
logs_bytes-layouts (log ∷ logs) events read fits =
    let (e, r1, e1) = >>=-eq-ok (event_of log) _ read in
    let (es, r2, e2) = >>=-eq-ok (events_of logs) _ e1 in
    let same : e ∷ es ≡ events = ok-injective e2 in
    let (fit, fit_later) = subst (All CountsFit) (sym same) fits in
    let (later, size) = logs_bytes-layouts logs es r2 fit_later in
    subst
      (λ (l : List Event).
        (logs_bytes (log ∷ logs) ≡ ok (layouts l)) × (suc (length logs) ≡ length l))
      same (rw (canonical_bytes-layout log e r1 fit, later) refl, ap suc size)

module _ (keccak : Bytes → Bytes) where
  canonical_event_set_hash-commitment_input :
      (block : ℕ) (logs : List Log) (events : List Event)
      → events_of logs ≡ ok events
      → All CountsFit events
      → block < 256 ^ 8
      → length events < 256 ^ 8
      → canonical_event_set_hash keccak block logs ≡ ok (keccak (commitment_input block events))
  unfolding canonical_event_set_hash preimage
  canonical_event_set_hash-commitment_input block logs events read fits in_range count =
      let (body, size) = logs_bytes-layouts logs events read fits in
      let small : leb (2 ^ 64) block ≡ false = ground arith in
      rw
        (
          small,
          to_bytes_big-ok 8 block in_range,
          size,
          to_bytes_big-ok 8 (length events) count,
          body,
        )
        refl

  -- Logs whose fields can be read as addresses, topics and data, of a block number and in a number that
  -- fit eight bytes, each with topics and data in numbers that fit four, verify against the hash of the
  -- tag, the block number, how many there are, and for each its address, how many topics, the topics, the
  -- data's length and the data, with every number big-endian; and against no other hash.
  pub verify_served_events_complete :
      (commitment : HexOrBytes) (anchor : Bytes) (block : ℕ) (logs : List Log) (events : List Event)
      → to_bytes commitment (some 32) ≡ ok anchor
      → events_of logs ≡ ok events
      → All CountsFit events
      → block < 256 ^ 8
      → length events < 256 ^ 8
      → (verify_served_events keccak commitment block logs ≡ ok true)
        ↔ (anchor ≡ keccak (commitment_input block events))
  unfolding verify_served_events
  verify_served_events_complete commitment anchor block logs events read events_read fits in_range
        count =
      let computed =
        canonical_event_set_hash-commitment_input block logs events events_read fits in_range
          count in
      (
        (λ e. sym (
            (bytes_eq_iff (keccak (commitment_input block events)) anchor).0
              (ok-injective (rw (read, computed) at e)))),
        (λ same.
            rw
              (
                read,
                computed,
                (bytes_eq_iff (keccak (commitment_input block events)) anchor).1 (sym same),
              )
              refl),
      )
