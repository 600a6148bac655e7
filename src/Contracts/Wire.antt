-- ===== src/Contracts/Wire.antt =====
-- The hand-written `Serialize` and `Deserialize` of aiai-contracts and aiai-signal, which are alike
-- in every file: a value is carried as a text, its print, and read back with its own `FromStr` or
-- `TryFrom<String>`. What they use of the crate `serde` is a parameter.
pub mod Laws
pub mod Ascii
pub mod Texts
pub mod Exact
use artificial_intelligence.Base.{Bytes, Result, map_err, ok, true, ◌↔◌, ◌≡◌, ◌>>=◌, ◌>>◌}
use artificial_intelligence.Contracts.Canonical.{is_ascii}

-- `Serializer`, for the one method called. `O` and `X` are its associated types.
pub record Serializer (S O X : Type 0) : Type 0 where
  pub serialize_str : S → Bytes → Result O X

-- `Deserializer`: the call `String::deserialize`, and `D::Error::custom` on a message.
pub record Deserializer (D X : Type 0) : Type 0 where
  pub string : D → Result Bytes X
  pub custom : Bytes → X

-- What a file of the source supplies for its type: the text that is written, the reading, and the
-- `Display` of the error.
pub record Text (A F : Type 0) : Type 0 where
  pub print : A → Bytes
  pub read : Bytes → Result A F
  pub message : F → Bytes

-- `Serialize::serialize`
unfoldable pub serialize :
    {A F S O X : Type 0} ⦃ser : Serializer S O X⦄ → Text A F → A → S → Result O X
serialize ⦃ser⦄ t a serializer = ser.serialize_str serializer (t.print a)

-- `Deserialize::deserialize`
unfoldable pub deserialize : {A F D X : Type 0} ⦃de : Deserializer D X⦄ → Text A F → D → Result A X
deserialize ⦃de⦄ t deserializer = do
  value ← de.string deserializer
  map_err (λ e. de.custom (t.message e)) (t.read value)

-- The text determines the value and the value the text: `read` accepts a text exactly if it is the
-- print of a value that fits the type of the source, and every print is ASCII.
pub record ExactText (A F : Type 0) : Type 1 where
  pub text : Text A F
  pub Fits : A → Type 0
  pub read_iff : (s : Bytes) (a : A) → (text.read s ≡ ok a) ↔ ((text.print a ≡ s) × Fits a)
  pub ascii : (a : A) → Fits a → is_ascii (text.print a) ≡ true
