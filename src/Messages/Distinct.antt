-- ===== src/Messages/Distinct.antt =====
-- src/willow/signed_messages.py: no two writes have one message.
use willow_sdk_python.Prelude.{
  ◌≡◌, refl, ◌⊎◌, inl, inr, ap, sym, ◌∙◌, subst, Bytes, IsByte, All, get_or, ◌==◌, if◌then◌else◌,
}
use willow_sdk_python.Prelude.Result.{Result, ok}
use willow_sdk_python.Hash.Binding.{Collision}
use willow_sdk_python.Messages.Lines.{join_lines-injective}
use willow_sdk_python.Messages.Writes.{
  Kind, store_data, store_file_manifest, delete_file_manifest, unregister_storage_node,
  grant_subgrove_key, rotate_subgrove_key, Request, Write, write_of, message,
}
use willow_sdk_python.Messages.Print.{kind_text, IsWrite, lines_of}
use willow_sdk_python.Messages.Binding.{lines_of_binds}
use willow_sdk_python.Messages.Plain.{kind_text-Plain, lines_of-AllPlain}
use willow_sdk_python.Messages.Opened.{
  Opened, store_data_message-Opened, delete_file_manifest_message-Opened,
  unregister_storage_node_message-Opened, store_file_manifest_message-Opened,
}
use willow_sdk_python.Messages.Opened.Keys.{
  grant_subgrove_key_message-Opened, rotate_subgrove_key_message-Opened,
}

-- The kind that a text names: the first letter tells it but for the two that start with an S.
kind_from : Bytes → Kind
kind_from t =
    if get_or t 0 0 == 68
    then delete_file_manifest
    else if get_or t 0 0 == 85
    then unregister_storage_node
    else if get_or t 0 0 == 71
    then grant_subgrove_key
    else if get_or t 0 0 == 82
    then rotate_subgrove_key
    else if get_or t 5 0 == 68
    then store_data
    else store_file_manifest

kind_from-kind_text : (k : Kind) → kind_from (kind_text k) ≡ k
unfolding kind_from
kind_from-kind_text store_data = refl
kind_from-kind_text store_file_manifest = refl
kind_from-kind_text delete_file_manifest = refl
kind_from-kind_text unregister_storage_node = refl
kind_from-kind_text grant_subgrove_key = refl
kind_from-kind_text rotate_subgrove_key = refl

kind_text-injective : (k j : Kind) → kind_text k ≡ kind_text j → k ≡ j
kind_text-injective k j e = sym (kind_from-kind_text k) ∙ ap kind_from e ∙ kind_from-kind_text j

module _ (sha256 : Bytes → Bytes) where
  message-Opened :
      (k : Kind) (a : Request k) (m : Bytes) → message sha256 k a ≡ ok m → Opened sha256 k a m
  message-Opened store_data a m e = store_data_message-Opened sha256 a m e
  message-Opened store_file_manifest a m e = store_file_manifest_message-Opened sha256 a m e
  message-Opened delete_file_manifest a m e = delete_file_manifest_message-Opened sha256 a m e
  message-Opened unregister_storage_node a m e = unregister_storage_node_message-Opened sha256 a m e
  message-Opened grant_subgrove_key a m e = grant_subgrove_key_message-Opened sha256 a m e
  message-Opened rotate_subgrove_key a m e = rotate_subgrove_key_message-Opened sha256 a m e

  -- What a request of some kind writes.
  abbrev pub written : (k : Kind) → Request k → (j : Kind) × Result (Write j)
  written k a = (k, write_of k a)

  same_write :
      (IsByte-sha256 : (x : Bytes) → All IsByte (sha256 x)) (k j : Kind) (w : Write k) (v : Write j)
      → k ≡ j
      → IsWrite k w
      → IsWrite j v
      → lines_of sha256 k w ≡ lines_of sha256 j v
      → (Path ((i : Kind) × Write i) (k, w) (j, v)) ⊎ Collision sha256
  same_write is_byte k j w v q vw =
      subst
        (λ (x : Kind).
          (u : Write x)
          → IsWrite x u
          → lines_of sha256 k w ≡ lines_of sha256 x u
          → (Path ((i : Kind) × Write i) (k, w) (x, u)) ⊎ Collision sha256)
        q
        (λ u vu e. elim (lines_of_binds sha256 is_byte k w u vw vu e) [
          | inl p ↦ inl (λ i. (k, p i))
          | inr c ↦ inr c
        ])
        v

  -- Let SHA-256's hashes be bytes. Two requests of any of the six kinds whose messages are the same text
  -- are of one kind and write the same: the same texts, numbers, bytes, grants in their order, and nonce;
  -- or SHA-256 has a collision.
  pub message_binds :
      ((x : Bytes) → All IsByte (sha256 x))
      → (k j : Kind) (a : Request k) (b : Request j) (m : Bytes) → message sha256 k a ≡ ok m
      → message sha256 j b ≡ ok m
      → (written k a ≡ written j b) ⊎ Collision sha256
  message_binds is_byte k j a b m ea eb =
      let x = message-Opened k a m ea in
      let y = message-Opened j b m eb in
      let (kinds, lines) =
        join_lines-injective (kind_text k) (lines_of sha256 k x.write) (kind_text j)
          (lines_of sha256 j y.write)
          (kind_text-Plain k, lines_of-AllPlain sha256 k x.write x.is_write)
          (kind_text-Plain j, lines_of-AllPlain sha256 j y.write y.is_write)
          (sym x.shown ∙ y.shown) in
      elim (same_write is_byte k j x.write y.write (kind_text-injective k j kinds) x.is_write
        y.is_write lines) [
          | inl p ↦
              inl (
                (λ i. (k, x.written i))
                ∙ (λ i. ((p i).0, ok (p i).1))
                ∙ sym (λ i. (j, y.written i)))
          | inr c ↦ inr c
        ]
