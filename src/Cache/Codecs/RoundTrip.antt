-- ===== src/Cache/Codecs/RoundTrip.antt =====
-- Bytes of internal/services/cache/codecs.go are read back by the codec that wrote them.
use go_backend_core.Prelude.{ℕ, ◌≡◌, refl, ◌≢◌, some, [], ◌∷◌}
use go_backend_core.Prelude.Equality.{nat_eq, string_eq}
use go_backend_core.Prelude.Dict.{read-write_self}
use go_backend_core.Prelude.Result.{Result, ok, err, ◌>>=◌}
use go_backend_core.Cache.Codecs.{
  Bytes, Codec, CodecError, Registry, register_codec, get_codec, get_codec_by_ver, encode_with,
  decode_with, decode_by,
}

versioned :
    (ver : ℕ) (payload : Result CodecError Bytes) (out : Bytes)
    → (payload >>= (λ b. ok (ver ∷ b))) ≡ ok out
    → (b : Bytes) × (payload ≡ ok b) × (out ≡ ver ∷ b)
versioned ver (ok b) out h = (b, refl, cc)
versioned ver (err e) out h = cc

module _ {V : Type 0} where
  decode_by_codec :
      (legacy codec : Codec V) (ver : ℕ) (b : Bytes) (value : V)
      → b ≢ []
      → codec.decode b ≡ ok value
      → decode_by legacy ver b (some codec) ≡ ok value
  decode_by_codec legacy codec ver [] value full back = absurd (full refl)
  decode_by_codec legacy codec ver (c ∷ b) value full back = rw back refl

  -- What is encoded by a codec that was registered last is decoded to the same value, if the codec
  -- reads back what it writes and never writes nothing; the codec is found by its name too.
  pub decode_with-encode_with :
      (r : Registry V) (codec : Codec V) (value : V) (out : Bytes)
      → ((v : V) (b : Bytes) → codec.encode v ≡ ok b → (b ≢ []) × (codec.decode b ≡ ok v))
      → encode_with codec value ≡ ok out
      → (decode_with (register_codec codec r) out ≡ ok value)
        × (get_codec codec.name (register_codec codec r) ≡ some codec)
  unfolding encode_with decode_with get_codec_by_ver register_codec get_codec
  decode_with-encode_with r codec value out sound e =
      let (b, payload, same) = versioned codec.version (codec.encode value) out e in
      let (full, back) = sound value b payload in
      (
        rw (same, read-write_self codec.version codec r.by_version)
            (decode_by_codec r.legacy_gob codec codec.version b value full back),
        read-write_self codec.name codec r.by_name,
      )
