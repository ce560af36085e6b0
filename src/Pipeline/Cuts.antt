-- ===== src/Pipeline/Cuts.antt =====
-- src/serde/variable_binary_serde.rs: messages that rkyv wrote, and the reads in which they come.
use reactive_messaging.Prelude.{
  ℕ, ◌≡◌, refl, sym, ap, ap₂, ◌∙◌, List, [], ◌∷◌, ◌++◌, append_assoc, done, All,
}
use reactive_messaging.Dialog.Context.{Services}
use reactive_messaging.Dialog.Pieces.{flatten}
use reactive_messaging.Dialog.Serialized.{
  SerializedWrapperType, from_raw_unchecked, deref, Event, to_send, sender_ended, read, would_block,
  read_failed,
}
use reactive_messaging.Dialog.Serialized.Frames.{reads, size_of, frames, payloads}
use reactive_messaging.Dialog.Serialized.Messages.{IsMessage}
use reactive_messaging.Dialog.Serialized.Sends.{framed}
use reactive_messaging.Serde.{Rkyv, rkyv_serialize, rkyv_deserialize_as_ref}
use reactive_messaging.Serde.RoundTrip.{IsRkyv, rkyv_serialize-rkyv_deserialize_as_ref}
use reactive_messaging.Pipeline.{Returns, value, value-done}

-- The bytes that events bring.
unfoldable pub received : {Local : Type 0} → List (Event Local) → List ℕ
received [] = []
received (read bytes ∷ events) = bytes ++ received events
received (to_send message room ∷ events) = received events
received (sender_ended ∷ events) = received events
received (would_block ∷ events) = received events
received (read_failed ∷ events) = received events

module _ {Local : Type 0} where
  received-reads :
      (pieces : List (List ℕ)) (events : List (Event Local))
      → received (reads pieces ++ events) ≡ flatten pieces ++ received events
  unfolding received reads flatten
  received-reads [] events = refl
  received-reads (piece ∷ pieces) events =
      ap (λ l. piece ++ l) (received-reads pieces events)
      ∙ sym (append_assoc piece (flatten pieces) (received events))

module _ {Message Archived RkyvError : Type 0} (rkyv : Rkyv Message Archived RkyvError)
    (archive : Message → Archived) (is_rkyv : IsRkyv rkyv archive) where
  pub rkyv-Returns : (m : Message) (buffer : List ℕ) → Returns (rkyv_serialize rkyv m buffer)
  rkyv-Returns m buffer =
      let (bytes, writes, sees) =
        rkyv_serialize-rkyv_deserialize_as_ref rkyv archive {Text = ℕ} {Cause = ℕ} is_rkyv m in
      rw (writes buffer) tt

  -- `Serializer::serialize()` of the rkyv serializer, which returns.
  unfoldable pub rkyv_payload : Message → List ℕ → List ℕ
  rkyv_payload m buffer = value (rkyv_serialize rkyv m buffer) (rkyv-Returns m buffer)

  same_payload : (m : Message) (buffer : List ℕ) → rkyv_payload m buffer ≡ rkyv_payload m []
  unfolding rkyv_payload
  same_payload m buffer =
      let (bytes, writes, sees) =
        rkyv_serialize-rkyv_deserialize_as_ref rkyv archive {Text = ℕ} {Cause = ℕ} is_rkyv m in
      value-done _ (rkyv-Returns m buffer) (writes buffer)
      ∙ sym (value-done _ (rkyv-Returns m []) (writes []))

  -- A message as it is received.
  unfoldable pub wrapped : Message → SerializedWrapperType
  unfolding from_raw_unchecked
  wrapped m = from_raw_unchecked (rkyv_payload m [])

  -- What a processor sees of it.
  seen :
      (Text Cause : Type 0) (m : Message)
      → deref (rkyv_deserialize_as_ref rkyv {Text = Text} {Cause = Cause}) (wrapped m)
        ≡ done (archive m)
  unfolding deref wrapped rkyv_payload from_raw_unchecked
  seen Text Cause m =
      let (bytes, writes, sees) =
        rkyv_serialize-rkyv_deserialize_as_ref rkyv archive {Text = Text} {Cause = Cause} is_rkyv
          m in
      rw (value-done _ (rkyv-Returns m []) (writes [])) (rw (sees, deref) refl)

  -- Messages, each with the pieces in which its payload is received.
  abbrev pub Cuts : Type 0
  Cuts = List (Message × List (List ℕ))

  abbrev pub messages_of : Cuts → List Message
  messages_of [] = []
  messages_of ((m, pieces) ∷ cuts) = m ∷ messages_of cuts

  abbrev pub pieces_of : Cuts → List (List (List ℕ))
  pieces_of [] = []
  pieces_of ((m, pieces) ∷ cuts) = pieces ∷ pieces_of cuts

  abbrev pub wrappers : List Message → List SerializedWrapperType
  wrappers [] = []
  wrappers (m ∷ messages) = wrapped m ∷ wrappers messages

  -- The pieces are those of the payload, which is not too long.
  abbrev pub AreCuts : ℕ → Cuts → Type 0
  AreCuts most [] = Unit {0}
  AreCuts most ((m, pieces) ∷ cuts) =
      (flatten pieces ≡ rkyv_payload m []) × IsMessage most pieces × AreCuts most cuts

  pub payloads_are :
      (most : ℕ) (cuts : Cuts)
      → AreCuts most cuts
      → payloads (pieces_of cuts) ≡ wrappers (messages_of cuts)
  unfolding payloads wrapped
  payloads_are most [] h = refl
  payloads_are most ((m, pieces) ∷ cuts) (e, is_message, h) =
      ap₂ (λ bytes wrapper. from_raw_unchecked bytes ∷ wrapper) e (payloads_are most cuts h)

  pub are_messages :
      (most : ℕ) (cuts : Cuts) → AreCuts most cuts → All (IsMessage most) (pieces_of cuts)
  are_messages most [] h = tt
  are_messages most ((m, pieces) ∷ cuts) (e, is_message, h) = (is_message, are_messages most cuts h)

  pub sees_each :
      (Text Cause : Type 0) (messages : List Message)
      → All
          (λ m.
            deref (rkyv_deserialize_as_ref rkyv {Text = Text} {Cause = Cause}) (wrapped m)
            ≡ done (archive m))
          messages
  sees_each Text Cause [] = tt
  sees_each Text Cause (m ∷ messages) = (seen Text Cause m, sees_each Text Cause messages)

  module _ {Text World : Type 0} (rest : Services SerializedWrapperType Message Text World)
      (most : ℕ) where
    -- The side that sends.
    abbrev pub sender : Services SerializedWrapperType Message Text World
    sender = record rest { serialize = rkyv_payload }

    -- What is written is what is received.
    pub framed-received :
        (Local : Type 0) (size_len : ℕ) (cuts : Cuts) (buffer : List ℕ)
        → AreCuts most cuts
        → framed sender size_len (messages_of cuts) buffer
          ≡ received {Local = Local} (frames size_len (pieces_of cuts))
    unfolding framed frames received
    framed-received Local size_len [] buffer h = refl
    framed-received Local size_len ((m, pieces) ∷ cuts) buffer (e, is_message, h) =
        ap₂ (λ payload rest. (size_of size_len payload ++ payload) ++ rest)
          (same_payload m buffer ∙ sym e)
          (framed-received Local size_len cuts (rkyv_payload m buffer) h)
        ∙ append_assoc (size_of size_len (flatten pieces)) (flatten pieces) _
        ∙ ap (λ l. size_of size_len (flatten pieces) ++ l)
            (sym (received-reads pieces (frames size_len (pieces_of cuts))))
