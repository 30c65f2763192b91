-- ===== src/Serialization.antt =====
-- packages/connect-core/src/serialization.ts.
use connect_web.ConnectError.{
  connect_error, throw_error, err, ok, ◌>>=◌, reason_text, Result, connect_error_from_reason, Bytes,
}
use connect_web.Code.{internal, Code, invalid_argument}
use connect_web.Prelude.{Bool, ◌++◌, if◌then◌else◌}
use connect_web.Text.{Text, codes}

-- `Serialization<T>`: both functions may throw
pub record Serialization (A : Type 0) : Type 0 where
  pub serialize : A → Result Bytes
  pub parse : Bytes → Result A

-- What the code asks of a message type of the protobuf library, with the options that it was given:
-- the binary and the JSON format, and the constructor, all of which may throw.
pub record MessageType (A P : Type 0) : Type 0 where
  pub from_binary : Bytes → Result A
  pub to_binary : A → Result Bytes
  pub from_json_string : Text → Result A
  pub to_json_string : A → Result Text
  pub create : P → Result A

-- the `textEncoder` and `textDecoder` of the options
pub record TextCodec : Type 0 where
  pub encode : Text → Bytes
  pub decode : Bytes → Result Text

-- `catch (e) { throw new ConnectError(`${prefix}${m}`, code) }`
unfoldable pub rethrow {ℓ} : {A : Type ℓ} → Text → Code → Result A → Result A
unfolding reason_text
rethrow prefix code (ok a) = ok a
rethrow prefix code (err e) = throw_error (prefix ++ reason_text e) code

-- `catch (e) { throw connectErrorFromReason(e, code) }`
unfoldable pub rethrow_reason {ℓ} : {A : Type ℓ} → Code → Result A → Result A
unfolding connect_error_from_reason
rethrow_reason code (ok a) = ok a
rethrow_reason code (err e) = err (connect_error (connect_error_from_reason e code))

module _ {A P : Type 0} (type : MessageType A P) where
  unfoldable pub create_binary_serialization : Serialization A
  unfolding rethrow
  create_binary_serialization = record {
    parse = λ bytes. rethrow (codes "parse binary: ") invalid_argument (type.from_binary bytes);
    serialize = λ value. rethrow (codes "serialize binary: ") internal (type.to_binary value);
  }

  unfoldable pub create_json_serialization : TextCodec → Serialization A
  unfolding rethrow_reason
  create_json_serialization codec = record {
    parse = λ bytes. rethrow_reason invalid_argument (codec.decode bytes >>= type.from_json_string);
    serialize = λ value.
        rethrow_reason internal (type.to_json_string value >>= λ json. ok (codec.encode json));
  }

-- `MethodInfo`: the types of the request and of the response
pub record Method (I PI O PO : Type 0) : Type 0 where
  pub input : MessageType I PI
  pub output : MessageType O PO

-- `MethodSerializationLookup`
pub record Lookup (I O : Type 0) : Type 0 where
  pub get_i : Bool → Serialization I
  pub get_o : Bool → Serialization O

-- `PartialMessage<I>` or `I`
pub data Input (I P : Type 0) : Type 0 where
  whole_message : I → Input I P
  partial_message : P → Input I P

pub record ClientSerializers (I P O : Type 0) : Type 0 where
  pub normalize : Input I P → Result I
  pub parse : Bytes → Result O
  pub serialize : I → Result Bytes

module _ {I PI O PO : Type 0} (method : Method I PI O PO) (codec : TextCodec) where
  unfoldable pub create_method_serialization_lookup : Lookup I O
  unfolding create_binary_serialization create_json_serialization
  create_method_serialization_lookup = record {
    get_i = λ binary.
        if binary
        then create_binary_serialization method.input
        else create_json_serialization method.input codec;
    get_o = λ binary.
        if binary
        then create_binary_serialization method.output
        else create_json_serialization method.output codec;
  }

  normalized : Input I PI → Result I
  normalized (whole_message m) = ok m
  normalized (partial_message p) = method.input.create p

  unfoldable pub create_client_method_serializers : Bool → ClientSerializers I PI O
  unfolding create_binary_serialization create_json_serialization normalized
  create_client_method_serializers binary =
      let input : Serialization I =
        if binary
        then create_binary_serialization method.input
        else create_json_serialization method.input codec in
      let output : Serialization O =
        if binary
        then create_binary_serialization method.output
        else create_json_serialization method.output codec in
      record { normalize = normalized; parse = output.parse; serialize = input.serialize }
