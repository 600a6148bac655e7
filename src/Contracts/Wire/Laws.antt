-- ===== src/Contracts/Wire/Laws.antt =====
-- What the hand-written `Serialize` and `Deserialize` make of exact texts.
use artificial_intelligence.Base.{
  ==_refl, Bytes, Result, Result-cases, ap, arith, inl, inr, ok, refl, sym, true, ◌↔◌, ◌∙◌, ◌≡◌,
  bytes_ord,
}
use artificial_intelligence.Contracts.Canonical.{Value, string, is_ascii, validate, canonical_json}
use artificial_intelligence.Contracts.Wire.{
  Serializer, Deserializer, serialize, deserialize, ExactText,
}

module _ {A F D X : Type 0} ⦃de : Deserializer D X⦄ (exact : ExactText A F) where
  -- A value is deserialized exactly if the input carries its print and nothing else, and the value
  -- fits its type: no second text is accepted for it.
  pub deserialize_iff :
      (d : D) (a : A)
      → (deserialize ⦃de = de⦄ exact.text d ≡ ok a)
        ↔ ((de.string d ≡ ok (exact.text.print a)) × exact.Fits a)
  unfolding deserialize
  deserialize_iff d a = (only, whenever)
    where
      only :
          deserialize ⦃de = de⦄ exact.text d ≡ ok a
          → (de.string d ≡ ok (exact.text.print a)) × exact.Fits a
      only h = elim (Result-cases (de.string d)) [
        | inr (x, k) ↦ absurd (ground arith)
        | inl (s, k) ↦ elim (Result-cases (exact.text.read s)) [
          | inr (f, l) ↦ absurd (ground arith)
          | inl (b, l) ↦
              let same : exact.text.read s ≡ ok a = ground arith in
              let (print, fits) = (exact.read_iff s a).0 same in (k ∙ ap ok (sym print), fits)
        ]
      ]

      whenever :
          (de.string d ≡ ok (exact.text.print a)) × exact.Fits a
          → deserialize ⦃de = de⦄ exact.text d ≡ ok a
      whenever (k, fits) =
          let read = (exact.read_iff (exact.text.print a) a).1 (refl, fits) in
          ground (arith, k, read)

module _ {A F S O D X Y : Type 0} ⦃ser : Serializer S O X⦄ ⦃de : Deserializer D Y⦄
    (exact : ExactText A F) where
  -- In a format that gives back the texts it was given, what is written is read back as the same
  -- value.
  pub deserialize-serialize :
      (open_it : O → D)
      → ((s : S) (text : Bytes) (o : O)
          → ser.serialize_str s text ≡ ok o
          → de.string (open_it o) ≡ ok text)
      → (a : A) (s : S) (o : O) → exact.Fits a
      → serialize ⦃ser = ser⦄ exact.text a s ≡ ok o
      → deserialize ⦃de = de⦄ exact.text (open_it o) ≡ ok a
  unfolding serialize
  deserialize-serialize open_it gives_back a s o fits h =
      (deserialize_iff exact (open_it o) a).1 (gives_back s (exact.text.print a) o h, fits)

module _ {A F N E : Type 0} (exact : ExactText A F) (nfc : Bytes → Bytes) where
  -- Where ASCII texts are in normal form, and the JSON form of a value is the text that it writes,
  -- the canonical bytes of a value are always produced: they are those of its text.
  pub canonical_json-text :
      ((s : Bytes) → is_ascii s ≡ true → nfc s ≡ s)
      → (to_value : A → Result (Value N) E) (to_vec : Value N → Result Bytes E) (a : A)
        (bytes : Bytes)
      → to_value a ≡ ok (string (exact.text.print a))
      → to_vec (string (exact.text.print a)) ≡ ok bytes
      → exact.Fits a
      → canonical_json nfc to_value to_vec a ≡ ok bytes
  unfolding canonical_json validate
  canonical_json-text fixed to_value to_vec a bytes form printed fits =
      let normal = fixed (exact.text.print a) (exact.ascii a fits) in
      ground (arith, form, printed, normal, ==_refl (exact.text.print a))
