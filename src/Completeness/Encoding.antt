-- ===== src/Completeness/Encoding.antt =====
-- src/willow/completeness.py: the layout of the bytes of a log, and of a list of logs.
use willow_sdk_python.Prelude.{
  ℕ, ◌^◌, ◌<◌, ◌≡◌, refl, ap₂, sym, ◌∙◌, arith, none, some, List, [], ◌∷◌, ◌++◌, Bytes, length, All,
  ==_iff, append_cut, append_assoc,
}
use willow_sdk_python.Prelude.Words.{to_big, length-to_big, to_big-injective}
use willow_sdk_python.Prelude.Result.{Result, ok, ◌>>=◌, >>=-eq-ok, ok-injective}
use willow_sdk_python.Hash.{from_hex}
use willow_sdk_python.Completeness.{
  HexOrBytes, hex, raw, Log, of_length, to_bytes, topics_bytes, concat, to_bytes_big, strip_0x,
}

-- The fields of a log that the commitment covers, as bytes.
pub record Event : Type 0 where
  pub address : Bytes
  pub topics : List Bytes
  pub payload : Bytes

-- Reads the fields of a log, as `Log.canonical_bytes` does.
unfoldable pub event_of : Log → Result Event
event_of log = do
  address ← to_bytes log.address (some 20)
  topics ← topics_bytes log.topics
  payload ← to_bytes log.payload none
  ok (record { address = address; topics = topics; payload = payload })

unfoldable pub events_of : List Log → Result (List Event)
events_of [] = ok []
events_of (log ∷ logs) = do event ← event_of log; events ← events_of logs; ok (event ∷ events)

-- The layout of a log's bytes.
unfoldable pub layout : Event → Bytes
layout e =
    e.address
    ++ (to_big 4 (length e.topics)
        ++ (concat e.topics ++ (to_big 4 (length e.payload) ++ e.payload)))

unfoldable pub layouts : List Event → Bytes
layouts [] = []
layouts (e ∷ es) = layout e ++ layouts es

-- Fixed widths, and counts that fit four bytes.
pub record IsEvent (e : Event) : Type 0 where
  pub address : length e.address ≡ 20
  pub topics : All (λ (t : Bytes). length t ≡ 32) e.topics
  pub topic_count : length e.topics < 256 ^ 4
  pub payload_length : length e.payload < 256 ^ 4

abbrev pub AllEvents : List Event → Type 0
AllEvents [] = Unit {0}
AllEvents (e ∷ es) = IsEvent e × AllEvents es

concat_cut :
    (ts us : List Bytes) (xs ys : Bytes)
    → length ts ≡ length us
    → All (λ (t : Bytes). length t ≡ 32) ts
    → All (λ (t : Bytes). length t ≡ 32) us
    → concat ts ++ xs ≡ concat us ++ ys
    → (ts ≡ us) × (xs ≡ ys)
unfolding concat
concat_cut [] [] xs ys h ht hu e = (refl, e)
concat_cut [] (u ∷ us) xs ys h ht hu e = absurd (omega arith)
concat_cut (t ∷ ts) [] xs ys h ht hu e = absurd (omega arith)
concat_cut (t ∷ ts) (u ∷ us) xs ys h (ht, hts) (hu, hus) e =
    let split = sym (append_assoc t (concat ts) xs) ∙ e ∙ append_assoc u (concat us) ys in
    let (first, later) = append_cut t (concat ts ++ xs) u (concat us ++ ys) (omega arith) split in
    let (rest, tails) = concat_cut ts us xs ys (omega arith) hts hus later in
    (ap₂ ◌∷◌ first rest, tails)

-- What follows each field of an event.
abbrev after_topics : Event → Bytes → Bytes
after_topics e xs = to_big 4 (length e.payload) ++ (e.payload ++ xs)

abbrev after_count : Event → Bytes → Bytes
after_count e xs = concat e.topics ++ after_topics e xs

abbrev after_address : Event → Bytes → Bytes
after_address e xs = to_big 4 (length e.topics) ++ after_count e xs

layout-append :
    (e : Event) (xs : Bytes)
    → layout e ++ xs
      ≡ e.address
        ++ (to_big 4 (length e.topics)
            ++ (concat e.topics ++ (to_big 4 (length e.payload) ++ (e.payload ++ xs))))
unfolding layout
layout-append e xs = simp append_assoc

-- A count of four bytes in front of what it counts.
pub count_cut :
    (m n : ℕ) (xs ys : Bytes)
    → m < 256 ^ 4
    → n < 256 ^ 4
    → to_big 4 m ++ xs ≡ to_big 4 n ++ ys
    → (m ≡ n) × (xs ≡ ys)
count_cut m n xs ys hm hn e =
    let (counts, later) =
      append_cut (to_big 4 m) xs (to_big 4 n) ys (length-to_big 4 m ∙ sym (length-to_big 4 n)) e in
    (to_big-injective 4 m n hm hn counts, later)

-- Two encoded events, each followed by anything, agree only if the events do and what follows does.
layout_cut :
    (d e : Event) (xs ys : Bytes)
    → IsEvent d
    → IsEvent e
    → layout d ++ xs ≡ layout e ++ ys
    → (d ≡ e) × (xs ≡ ys)
layout_cut d e xs ys hd he p =
    let (address, p1) =
      append_cut d.address (after_address d xs) e.address (after_address e ys)
        (hd.address ∙ sym he.address) (sym (layout-append d xs) ∙ p ∙ layout-append e ys) in
    let (topic_count, p2) =
      count_cut (length d.topics) (length e.topics) (after_count d xs) (after_count e ys)
        hd.topic_count he.topic_count p1 in
    let (topics, p3) =
      concat_cut d.topics e.topics (after_topics d xs) (after_topics e ys) topic_count hd.topics
        he.topics p2 in
    let (payload_length, p4) =
      count_cut (length d.payload) (length e.payload) (d.payload ++ xs) (e.payload ++ ys)
        hd.payload_length he.payload_length p3 in
    let (payload, p5) = append_cut d.payload xs e.payload ys payload_length p4 in
    ((λ i. record { address = address i; topics = topics i; payload = payload i }), p5)

pub layouts-injective :
    (ds es : List Event)
    → length ds ≡ length es
    → AllEvents ds
    → AllEvents es
    → layouts ds ≡ layouts es
    → ds ≡ es
unfolding layouts
layouts-injective [] [] h hd he p = refl
layouts-injective [] (e ∷ es) h hd he p = absurd (omega arith)
layouts-injective (d ∷ ds) [] h hd he p = absurd (omega arith)
layouts-injective (d ∷ ds) (e ∷ es) h (hd, hds) (he, hes) p =
    let (first, later) = layout_cut d e (layouts ds) (layouts es) hd he p in
    ap₂ ◌∷◌ first (layouts-injective ds es (omega arith) hds hes later)

-- What the code reads and writes: a log whose bytes are computed has an event of fixed widths, and
-- its bytes are that event's.
of_length-length : (n : ℕ) (out b : Bytes) → of_length (some n) out ≡ ok b → length b ≡ n
unfolding of_length
of_length-length n out b e = ground (arith, ==_iff (length out) n)

pub to_bytes-length :
    (v : HexOrBytes) (n : ℕ) (b : Bytes) → to_bytes v (some n) ≡ ok b → length b ≡ n
unfolding to_bytes
to_bytes-length (hex text) n b e =
    let (out, got, checked) = >>=-eq-ok (from_hex none (strip_0x text)) (of_length (some n)) e in
    of_length-length n out b checked
to_bytes-length (raw out) n b e = of_length-length n out b e

pub topics_bytes-lengths :
    (ts : List HexOrBytes) (bs : List Bytes)
    → topics_bytes ts ≡ ok bs
    → All (λ (t : Bytes). length t ≡ 32) bs
unfolding topics_bytes
topics_bytes-lengths [] bs e = rw (← ok-injective e) tt
topics_bytes-lengths (t ∷ ts) bs e =
    let (topic, first, e1) = >>=-eq-ok (to_bytes t (some 32)) _ e in
    let (later, rest, e2) = >>=-eq-ok (topics_bytes ts) _ e1 in
    rw (← ok-injective e2) (to_bytes-length t 32 topic first, topics_bytes-lengths ts later rest)

pub to_bytes_big-fits :
    (width n : ℕ) (b : Bytes)
    → to_bytes_big width n ≡ ok b
    → (n < 256 ^ width) × (b ≡ to_big width n)
unfolding to_bytes_big
to_bytes_big-fits width n b e = ground arith
