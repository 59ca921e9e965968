-- ===== src/Wire.antt =====
-- What the generated code of common/src/machine.pb.cc takes from the protobuf runtime, which is not
-- part of the repository: the reader of the wire format, the writers, and the sizes.
pub mod Laws
pub mod Loop
use client_server_db.Prelude.{ℕ, Text, List, Bool, Option}
use client_server_db.Prelude.Int.{ℤ}
use client_server_db.Floats.{Floats}

abbrev pub Bytes : Type 0
Bytes = List ℕ

-- `ReadTagWithCutoffNoLastTag`: the tag and what follows it. At the end of the input the runtime
-- answers 0 too, and notes that the message ends there.
pub data NextTag : Type 0 where
  at_end : NextTag
  tag : ℕ → Bytes → NextTag

-- The state of a message's parser when it returns true: the message, and whether the input was
-- used up (`ConsumedEntireMessage`); none where it returns false.
abbrev pub Merged : Type 0 → Type 0
Merged M = Option (M × Bool)

pub record Runtime (floats : Floats) : Type 1 where
  -- `CodedInputStream` and `WireFormatLite`: a reader answers the value and the bytes that follow.
  pub read_tag : Bytes → NextTag
  pub read_int32 : Bytes → Option (ℤ × Bytes)
  pub read_float : Bytes → Option (floats.Float × Bytes)
  pub read_string : Bytes → Option (Text × Bytes)
  -- `ReadMessage`: a length, and that many bytes for the parser of the message.
  pub read_message : (M : Type 0) → (Bytes → M → Merged M) → Bytes → M → Option (M × Bytes)
  -- `SkipField`: what follows the field, and the unknown fields with the field behind them.
  pub skip_field : ℕ → Bytes → Bytes → Option (Bytes × Bytes)
  -- `VerifyUtf8String`
  pub is_utf8 : Text → Bool
  -- `WriteInt32ToArray` and the like: the field's number and its value.
  pub write_int32 : ℕ → ℤ → Bytes
  pub write_float : ℕ → floats.Float → Bytes
  pub write_string : ℕ → Text → Bytes
  -- `InternalWriteMessageToArray`: the number, the message's cached size, and its bytes.
  pub write_message : ℕ → ℕ → Bytes → Bytes
  -- `Int32Size`, `StringSize`, and `MessageSize` of a message of that size.
  pub int32_size : ℤ → ℕ
  pub string_size : Text → ℕ
  pub message_size : ℕ → ℕ
  -- `GetProto3PreserveUnknownsDefault`, `SerializeUnknownFieldsToArray`,
  -- `ComputeUnknownFieldsSize`.
  pub preserves_unknowns : Bool
  pub write_unknowns : Bytes → Bytes
  pub unknowns_size : Bytes → ℕ
  -- `google::protobuf::Timestamp` and `TimeUtil::TimestampToSeconds`.
  pub Timestamp : Type 0
  pub new_timestamp : Timestamp
  pub merge_timestamp : Bytes → Timestamp → Merged Timestamp
  pub merge_from_timestamp : Timestamp → Timestamp → Timestamp
  pub serialize_timestamp : Timestamp → Bytes
  pub timestamp_size : Timestamp → ℕ
  pub seconds : Timestamp → ℤ
