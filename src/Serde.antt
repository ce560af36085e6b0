-- ===== src/Serde.antt =====
-- src/serde/textual_serde.rs and src/serde/variable_binary_serde.rs: the serializers that write a message
-- into a buffer, and the deserializers. What the crates ron and rkyv do with a message is a parameter: the
-- pieces of bytes that they write, one after the other, and whether they fail.
pub mod RoundTrip
use reactive_messaging.Prelude.{
  ℕ, ◌⊎◌, inl, inr, List, [], ◌∷◌, ◌++◌, Option, none, some, Eval, done, panic,
}

-- `Error` of src/types.rs.
pub data Error (Text Cause : Type 0) : Type 0 where
  textual_input_parsing_error : Text → Cause → Error Text Cause
  binary_input_validation_error : Text → Cause → Error Text Cause

-- The crate ron: making a serializer may fail, as may a message, after some pieces were written.
pub record Ron (Message RonError : Type 0) : Type 0 where
  pub with_options : Option RonError
  pub serialize : Message → List (List ℕ) × Option RonError
  pub from_bytes : List ℕ → Message ⊎ RonError

-- The crate rkyv.
pub record Rkyv (Message Archived RkyvError : Type 0) : Type 0 where
  pub serialize_value : Message → List (List ℕ) × Option RkyvError
  pub archived_root : List ℕ → Archived

-- `VecWriteAdapter::write_str()`, for each piece.
unfoldable pub write_pieces : List ℕ → List (List ℕ) → List ℕ
write_pieces buffer [] = buffer
write_pieces buffer (piece ∷ pieces) = write_pieces (buffer ++ piece) pieces

-- `unwrap_or_else(|err| panic!(..))`, on the error, if any, and the buffer.
unfoldable pub or_panic : {RonError : Type 0} → Option RonError × List ℕ → Eval (List ℕ)
or_panic (none, buffer) = done buffer
or_panic (some err, buffer) = panic

module _ {Message RonError : Type 0} (ron : Ron Message RonError) where
  pieces_after : Option RonError → Message → List ℕ → Option RonError × List ℕ
  unfolding write_pieces
  pieces_after (some err) message buffer = (some err, buffer)
  pieces_after none message buffer =
      let (pieces, failure) = ron.serialize message in (failure, write_pieces buffer pieces)

  -- `ron_serializer()`: the buffer is cleared first.
  unfoldable pub ron_serializer : Message → List ℕ → Option RonError × List ℕ
  unfolding pieces_after
  ron_serializer message buffer = pieces_after ron.with_options message []

  -- `ReactiveMessagingRonSerializer::serialize()`
  unfoldable pub ron_serialize : Message → List ℕ → Eval (List ℕ)
  unfolding ron_serializer or_panic
  ron_serialize message buffer = or_panic (ron_serializer message buffer)

  module _ {Text Cause : Type 0} (cause : List ℕ → RonError → Cause) (msg : Text) where
    parsed : List ℕ → Message ⊎ RonError → Message ⊎ Cause
    parsed bytes (inl message) = inl message
    parsed bytes (inr err) = inr (cause bytes err)

    -- `ron_deserializer()`
    unfoldable pub ron_deserializer : List ℕ → Message ⊎ Cause
    unfolding parsed
    ron_deserializer bytes = parsed bytes (ron.from_bytes bytes)

    as_parsing_error : Message ⊎ Cause → Message ⊎ Error Text Cause
    as_parsing_error (inl message) = inl message
    as_parsing_error (inr err) = inr (textual_input_parsing_error msg err)

    -- `ReactiveMessagingRonDeserializer::deserialize()`
    unfoldable pub ron_deserialize : List ℕ → Message ⊎ Error Text Cause
    unfolding ron_deserializer as_parsing_error
    ron_deserialize bytes = as_parsing_error (ron_deserializer bytes)

    -- Its `validate()` and `deserialize_as_ref()`, which no textual dialog calls.
    unfoldable pub ron_validate : List ℕ → Eval (Unit {0} ⊎ Error Text Cause)
    ron_validate bytes = panic

    unfoldable pub ron_deserialize_as_ref : List ℕ → Eval (Message ⊎ Error Text Cause)
    ron_deserialize_as_ref bytes = panic

module _ {Message Archived RkyvError : Type 0} (rkyv : Rkyv Message Archived RkyvError) where
  -- `rkyv_serializer()`
  unfoldable pub rkyv_serializer : Message → List ℕ → Option RkyvError × List ℕ
  unfolding write_pieces
  rkyv_serializer message buffer =
      let (pieces, failure) = rkyv.serialize_value message in (failure, write_pieces [] pieces)

  -- `ReactiveMessagingRkyvSerializer::serialize()`
  unfoldable pub rkyv_serialize : Message → List ℕ → Eval (List ℕ)
  unfolding rkyv_serializer or_panic
  rkyv_serialize message buffer = or_panic (rkyv_serializer message buffer)

  -- `rkyv_deserializer()`
  unfoldable pub rkyv_deserializer : List ℕ → Archived
  rkyv_deserializer bytes = rkyv.archived_root bytes

  module _ {Text Cause : Type 0} where
    -- `ReactiveMessagingRkyvFastDeserializer`: it validates nothing.
    unfoldable pub rkyv_validate : List ℕ → Unit {0} ⊎ Error Text Cause
    rkyv_validate bytes = inl tt

    unfoldable pub rkyv_deserialize : List ℕ → Eval (Message ⊎ Error Text Cause)
    rkyv_deserialize bytes = panic

    unfoldable pub rkyv_deserialize_as_ref : List ℕ → Archived ⊎ Error Text Cause
    unfolding rkyv_deserializer
    rkyv_deserialize_as_ref bytes = inl (rkyv_deserializer bytes)
