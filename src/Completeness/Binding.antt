-- ===== src/Completeness/Binding.antt =====
-- src/willow/completeness.py: `canonical_event_set_hash` and `verify_served_events`, on two blocks
-- and lists of logs.
use willow_sdk_python.Prelude.{
  ℕ, suc, ◌^◌, ◌<◌, ◌≡◌, ◌⊎◌, inl, inr, refl, ap, ap₂, sym, ◌∙◌, true, none, some, List, [], ◌∷◌,
  ◌++◌, Bytes, length, leb, append_cut, Bool-cases, bytes_eq_iff,
}
use willow_sdk_python.Prelude.Words.{to_big, length-to_big, to_big-injective}
use willow_sdk_python.Prelude.Result.{ok, >>=-eq-ok, ok-injective}
use willow_sdk_python.Hash.Binding.{Collision, same_input}
use willow_sdk_python.Completeness.{
  HexOrBytes, Log, to_bytes, topics_bytes, to_bytes_big, concat, canonical_bytes, logs_bytes,
  domain_tag, preimage, canonical_event_set_hash, verify_served_events,
}
use willow_sdk_python.Completeness.Encoding.{
  Event, IsEvent, AllEvents, event_of, events_of, layout, layouts, layouts-injective,
  to_bytes_big-fits, topics_bytes-lengths, to_bytes-length,
}

-- A log whose bytes are computed.
pub record Encoded (log : Log) (b : Bytes) : Type 0 where
  pub event : Event
  pub read : event_of log ≡ ok event
  pub shape : IsEvent event
  pub bytes : b ≡ layout event

Encoded-of :
    (log : Log) (address : Bytes) (topics : List Bytes) (payload count size b : Bytes)
    → to_bytes log.address (some 20) ≡ ok address
    → topics_bytes log.topics ≡ ok topics
    → to_bytes log.payload none ≡ ok payload
    → to_bytes_big 4 (length topics) ≡ ok count
    → to_bytes_big 4 (length payload) ≡ ok size
    → address ++ (count ++ (concat topics ++ (size ++ payload))) ≡ b
    → Encoded log b
unfolding event_of layout
Encoded-of log address topics payload count size b r1 r2 r3 r4 r5 e =
    let (topic_count, count_bytes) = to_bytes_big-fits 4 (length topics) count r4 in
    let (payload_length, size_bytes) = to_bytes_big-fits 4 (length payload) size r5 in
    record {
      event = record { address = address; topics = topics; payload = payload };
      read = rw (r1, r2, r3);
      shape = record {
        address = to_bytes-length log.address 20 address r1;
        topics = topics_bytes-lengths log.topics topics r2;
        topic_count = topic_count;
        payload_length = payload_length;
      };
      bytes =
          sym e
          ∙ ap₂ (λ (c z : Bytes). address ++ (c ++ (concat topics ++ (z ++ payload)))) count_bytes
              size_bytes;
    }

canonical_bytes-Encoded : (log : Log) (b : Bytes) → canonical_bytes log ≡ ok b → Encoded log b
unfolding canonical_bytes
canonical_bytes-Encoded log b e =
    let (address, r1, e1) = >>=-eq-ok (to_bytes log.address (some 20)) _ e in
    let (topics, r2, e2) = >>=-eq-ok (topics_bytes log.topics) _ e1 in
    let (payload, r3, e3) = >>=-eq-ok (to_bytes log.payload none) _ e2 in
    let (count, r4, e4) = >>=-eq-ok (to_bytes_big 4 (length topics)) _ e3 in
    let (size, r5, e5) = >>=-eq-ok (to_bytes_big 4 (length payload)) _ e4 in
    Encoded-of log address topics payload count size b r1 r2 r3 r4 r5 (ok-injective e5)

pub record EncodedLogs (logs : List Log) (b : Bytes) : Type 0 where
  pub events : List Event
  pub read : events_of logs ≡ ok events
  pub shape : AllEvents events
  pub size : length events ≡ length logs
  pub bytes : b ≡ layouts events

logs_bytes-EncodedLogs : (logs : List Log) (b : Bytes) → logs_bytes logs ≡ ok b → EncodedLogs logs b
unfolding logs_bytes events_of layouts
logs_bytes-EncodedLogs [] b e = record {
  events = [];
  read = refl;
  shape = tt;
  size = refl;
  bytes = sym (ok-injective e);
}
logs_bytes-EncodedLogs (log ∷ logs) b e =
    let (first, r1, e1) = >>=-eq-ok (canonical_bytes log) _ e in
    let (later, r2, e2) = >>=-eq-ok (logs_bytes logs) _ e1 in
    let one = canonical_bytes-Encoded log first r1 in
    let rest = logs_bytes-EncodedLogs logs later r2 in
    record {
      events = one.event ∷ rest.events;
      read = rw (one.read, rest.read);
      shape = (one.shape, rest.shape);
      size = ap suc rest.size;
      bytes = sym (ok-injective e2) ∙ ap₂ ◌++◌ one.bytes rest.bytes;
    }

-- What is hashed, taken apart.
pub record Hashed (block : ℕ) (logs : List Log) (p : Bytes) : Type 0 where
  pub in_range : block < 256 ^ 8
  pub count_in_range : length logs < 256 ^ 8
  pub body : Bytes
  pub encoded : EncodedLogs logs body
  pub bytes : p ≡ domain_tag ++ (to_big 8 block ++ (to_big 8 (length logs) ++ body))

preimage-Hashed :
    (block : ℕ) (logs : List Log) (p : Bytes) → preimage block logs ≡ ok p → Hashed block logs p
unfolding preimage
preimage-Hashed block logs p e = elim (Bool-cases (leb (2 ^ 64) block)) [
  | inl big ↦ cc (rw big at e)
  | inr fits ↦
      let (block_bytes, r1, e1) = >>=-eq-ok (to_bytes_big 8 block) _ (rw fits at e) in
      let (count_bytes, r2, e2) = >>=-eq-ok (to_bytes_big 8 (length logs)) _ e1 in
      let (body, r3, e3) = >>=-eq-ok (logs_bytes logs) _ e2 in
      let (block_fits, block_is) = to_bytes_big-fits 8 block block_bytes r1 in
      let (count_fits, count_is) = to_bytes_big-fits 8 (length logs) count_bytes r2 in
      record {
        in_range = block_fits;
        count_in_range = count_fits;
        body = body;
        encoded = logs_bytes-EncodedLogs logs body r3;
        bytes =
            sym (ok-injective e3)
            ∙ ap₂ (λ (c z : Bytes). domain_tag ++ (c ++ (z ++ body))) block_is count_is;
      }
]

same_events :
    (b b' : ℕ) (logs logs' : List Log) (p : Bytes)
    → Hashed b logs p
    → Hashed b' logs' p
    → (b ≡ b') × (events_of logs ≡ events_of logs')
same_events b b' logs logs' p h h' =
    let after_tag = (append_cut domain_tag _ domain_tag _ refl (sym h.bytes ∙ h'.bytes)).1 in
    let (block, after_block) =
      append_cut (to_big 8 b) _ (to_big 8 b') _ (length-to_big 8 b ∙ sym (length-to_big 8 b'))
        after_tag in
    let (count, after_count) =
      append_cut (to_big 8 (length logs)) _ (to_big 8 (length logs')) _
        (length-to_big 8 (length logs) ∙ sym (length-to_big 8 (length logs'))) after_block in
    let one = h.encoded in
    let two = h'.encoded in
    let same_count =
      to_big-injective 8 (length logs) (length logs') h.count_in_range h'.count_in_range count in
    let same_size : length one.events ≡ length two.events = one.size ∙ same_count ∙ sym two.size in
    let events =
      layouts-injective one.events two.events same_size one.shape two.shape
        (sym one.bytes ∙ after_count ∙ two.bytes) in
    (to_big-injective 8 b b' h.in_range h'.in_range block, one.read ∙ ap ok events ∙ sym two.read)

module _ (keccak : Bytes → Bytes) where
  -- One commitment for two blocks and lists of logs: the block numbers are the same, and the logs
  -- have the same addresses, topics and data, in the same order; or keccak has a collision.
  pub commitment_binds :
      (b b' : ℕ) (logs logs' : List Log) {hash : Bytes}
      → canonical_event_set_hash keccak b logs ≡ ok hash
      → canonical_event_set_hash keccak b' logs' ≡ ok hash
      → ((b ≡ b') × (events_of logs ≡ events_of logs')) ⊎ Collision keccak
  unfolding canonical_event_set_hash
  commitment_binds b b' logs logs' e e' =
      let (p, r, h) = >>=-eq-ok (preimage b logs) _ e in
      let (p', r', h') = >>=-eq-ok (preimage b' logs') _ e' in
      elim (same_input keccak p p' (ok-injective h ∙ sym (ok-injective h'))) [
        | inl same ↦ inl (
            same_events b b' logs logs' p' (preimage-Hashed b logs p' (r ∙ ap ok same))
              (preimage-Hashed b' logs' p' r'))
        | inr collision ↦ inr collision
      ]

  -- Against the commitment that the chain computed for a block's logs, served logs verify only if
  -- they are for that block and hold the same addresses, topics and data in the same order, none
  -- added, dropped or changed; or keccak has a collision.
  pub verify_served_events_sound :
      (commitment : HexOrBytes) (anchor : Bytes) (b served_b : ℕ) (logs served : List Log)
      → canonical_event_set_hash keccak b logs ≡ ok anchor
      → to_bytes commitment (some 32) ≡ ok anchor
      → verify_served_events keccak commitment served_b served ≡ ok true
      → ((served_b ≡ b) × (events_of served ≡ events_of logs)) ⊎ Collision keccak
  unfolding verify_served_events
  verify_served_events_sound commitment anchor b served_b logs served chain read verdict =
      let (got, r1, e1) = >>=-eq-ok (to_bytes commitment (some 32)) _ verdict in
      let (computed, r2, e2) = >>=-eq-ok (canonical_event_set_hash keccak served_b served) _ e1 in
      let same = (bytes_eq_iff computed got).0 (ok-injective e2) in
      let anchored : got ≡ anchor = ok-injective (sym r1 ∙ read) in
      commitment_binds served_b b served logs (r2 ∙ ap ok (same ∙ anchored)) chain
