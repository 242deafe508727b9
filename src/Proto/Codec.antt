-- ===== src/Proto/Codec.antt =====
-- internal/proto/decode.go: reading and writing a message. `Json` is encoding/json: D is its texts,
-- `read_…` json.Unmarshal into one type, and `marshal` json.Marshal.
use serversmonitor.Prelude.{
  ◌≡◌, refl, Option, none, some, String, if◌then◌else◌, text_eq, String_discrete,
}
use serversmonitor.Proto.Messages.{
  Message, Hello, Welcome, Sample, Reconfigure, hello, welcome, sample, reconfigure, version,
  type_hello, type_welcome, type_sample, type_reconfigure,
}

pub record Json (F D : Type 0) : Type 0 where
  pub read_type : D → Option String
  pub read_hello : D → Option Hello
  pub read_welcome : D → Option Welcome
  pub read_sample : D → Option (Sample F)
  pub read_reconfigure : D → Option Reconfigure
  pub marshal : Message F → D

pub data Decoded (F : Type 0) : Type 0 where
  message : Message F → Decoded F
  malformed unknown_type : Decoded F

module _ {F : Type 0} where
  abbrev pub as_message : {A : Type 0} → (A → Message F) → Option A → Decoded F
  as_message make none = malformed
  as_message make (some a) = message (make a)

  abbrev pub type_of : Message F → String
  type_of (hello m) = m.type
  type_of (welcome m) = m.type
  type_of (sample m) = m.type
  type_of (reconfigure m) = m.type

  -- The V field set to the version of the protocol.
  abbrev pub stamped : Message F → Message F
  stamped (hello m) = hello (record m { v = version })
  stamped (welcome m) = welcome (record m { v = version })
  stamped (sample m) = sample (record m { v = version })
  stamped (reconfigure m) = reconfigure (record m { v = version })

  -- The type that a message of each kind names.
  abbrev pub own_type : Message F → String
  own_type (hello m) = type_hello
  own_type (welcome m) = type_welcome
  own_type (sample m) = type_sample
  own_type (reconfigure m) = type_reconfigure

module _ {F D : Type 0} (json : Json F D) where
  unfoldable pub decode_as : String → D → Decoded F
  decode_as type data' =
      if text_eq type type_hello
      then as_message hello (json.read_hello data')
      else if text_eq type type_welcome
      then as_message welcome (json.read_welcome data')
      else if text_eq type type_sample
      then as_message sample (json.read_sample data')
      else if text_eq type type_reconfigure
      then as_message reconfigure (json.read_reconfigure data')
      else unknown_type

  -- Decode
  unfoldable pub decode : D → Decoded F
  decode data' = elim (json.read_type data') [ none ↦ malformed | some type ↦ decode_as type data' ]

  -- Encode: none when the message has no type.
  unfoldable pub encode : Message F → Option D
  encode m = if text_eq (type_of m) "" then none else some (json.marshal (stamped m))

  -- What is read of a text that was written is what was written.
  abbrev pub ReadsBack : Type 0
  ReadsBack =
      ((m : Message F) → json.read_type (json.marshal m) ≡ some (type_of m))
      × ((m : Hello) → json.read_hello (json.marshal (hello m)) ≡ some m)
      × ((m : Welcome) → json.read_welcome (json.marshal (welcome m)) ≡ some m)
      × ((m : Sample F) → json.read_sample (json.marshal (sample m)) ≡ some m)
      × ((m : Reconfigure) → json.read_reconfigure (json.marshal (reconfigure m)) ≡ some m)

  -- Over a JSON package that reads back what it wrote, a message that carries its own type is always
  -- encoded, and decodes to itself with the protocol's version on it.
  pub decode-encode :
      (m : Message F)
      → ReadsBack
      → type_of m ≡ own_type m
      → (d : D) × ((encode m ≡ some d) × (decode d ≡ message (stamped m)))
  unfolding encode decode decode_as String_discrete
  decode-encode (hello m) law e =
      let d = hello (record m { v = version }) in
      (
        json.marshal d,
        (
          rw (encode, e) refl,
          rw (decode, law.0 d, e, law.1 (record m { v = version; type = type_hello })) refl,
        ),
      )
  decode-encode (welcome m) law e =
      let d = welcome (record m { v = version }) in
      (
        json.marshal d,
        (
          rw (encode, e) refl,
          rw (decode, law.0 d, e, law.2 (record m { v = version; type = type_welcome })) refl,
        ),
      )
  decode-encode (sample m) law e =
      let d = sample (record m { v = version }) in
      (
        json.marshal d,
        (
          rw (encode, e) refl,
          rw (decode, law.0 d, e, law.3 (record m { v = version; type = type_sample })) refl,
        ),
      )
  decode-encode (reconfigure m) law e =
      let d = reconfigure (record m { v = version }) in
      (
        json.marshal d,
        (
          rw (encode, e) refl,
          rw (decode, law.0 d, e, law.4 (record m { v = version; type = type_reconfigure })) refl,
        ),
      )
