-- ===== src/Serde/RoundTrip.antt =====
-- What the serializers write and the deserializers read.
use reactive_messaging.Prelude.{
  ℕ, ◌≡◌, inl, refl, sym, ap, ◌∙◌, List, [], ◌∷◌, ◌++◌, append_assoc, append-nil, Option, none,
  done,
}
use reactive_messaging.Dialog.Pieces.{flatten}
use reactive_messaging.Dialog.Textual.Lines.{NoNewline}
use reactive_messaging.Serde.{
  Ron, Rkyv, write_pieces, ron_serializer, ron_serialize, ron_deserialize, rkyv_serialize,
  rkyv_deserialize_as_ref,
}

write_pieces-flatten :
    (buffer : List ℕ) (pieces : List (List ℕ))
    → write_pieces buffer pieces ≡ buffer ++ flatten pieces
unfolding write_pieces flatten
write_pieces-flatten buffer [] = sym (append-nil buffer)
write_pieces-flatten buffer (piece ∷ pieces) =
    write_pieces-flatten (buffer ++ piece) pieces ∙ append_assoc buffer piece (flatten pieces)

abbrev written : {RonError : Type 0} → List (List ℕ) × Option RonError → List ℕ
written (pieces, failure) = flatten pieces

module _ {Message RonError : Type 0} (ron : Ron Message RonError) where
  -- What ron documents: it can be set up and writes any message of these types, on one line since no pretty
  -- printing is asked for, in a form that it reads again.
  pub record IsRon : Type 0 where
    pub starts : ron.with_options ≡ none
    pub writes : (m : Message) → (ron.serialize m).1 ≡ none
    pub one_line : (m : Message) → NoNewline (written (ron.serialize m))
    pub reads : (m : Message) → ron.from_bytes (written (ron.serialize m)) ≡ inl m

  module _ {Text Cause : Type 0} (cause : List ℕ → RonError → Cause) (msg : Text) where
    read_message :
        (bytes : List ℕ) (m : Message)
        → ron.from_bytes bytes ≡ inl m
        → ron_deserialize ron cause msg bytes ≡ inl m
    unfolding ron_deserialize
    read_message bytes m e = rw e refl

    -- A message is serialized, without a panic, to one line of bytes, the same whatever the buffer held,
    -- and these are deserialized to the message again.
    pub ron_serialize-ron_deserialize :
        IsRon
        → (m : Message)
        → (bytes : List ℕ) × ((buffer : List ℕ) → ron_serialize ron m buffer ≡ done bytes)
          × (ron_deserialize ron cause msg bytes ≡ inl m)
          × NoNewline bytes
    unfolding ron_serialize ron_serializer
    ron_serialize-ron_deserialize is_ron m = (
      written (ron.serialize m),
      λ buffer.
          rw is_ron.starts
            (rw (is_ron.writes m) (ap done (write_pieces-flatten [] (ron.serialize m).0))),
      read_message (written (ron.serialize m)) m (is_ron.reads m),
      is_ron.one_line m,
    )

module _ {Message Archived RkyvError : Type 0} (rkyv : Rkyv Message Archived RkyvError)
    (archive : Message → Archived) where
  -- What rkyv documents: a value is written without an error, and its bytes are seen as its archived form.
  pub record IsRkyv : Type 0 where
    pub writes : (m : Message) → (rkyv.serialize_value m).1 ≡ none
    pub sees : (m : Message) → rkyv.archived_root (written (rkyv.serialize_value m)) ≡ archive m

  -- A message is serialized, without a panic, to bytes that are the same whatever the buffer held, and that
  -- are seen as the archived message.
  pub rkyv_serialize-rkyv_deserialize_as_ref :
      {Text Cause : Type 0}
      → IsRkyv
      → (m : Message)
      → (bytes : List ℕ) × ((buffer : List ℕ) → rkyv_serialize rkyv m buffer ≡ done bytes)
        × (rkyv_deserialize_as_ref rkyv {Text = Text} {Cause = Cause} bytes ≡ inl (archive m))
  unfolding rkyv_serialize rkyv_deserialize_as_ref
  rkyv_serialize-rkyv_deserialize_as_ref is_rkyv m = (
    written (rkyv.serialize_value m),
    λ buffer. rw (is_rkyv.writes m) (ap done (write_pieces-flatten [] (rkyv.serialize_value m).0)),
    ap inl (is_rkyv.sees m),
  )
