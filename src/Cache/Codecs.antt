-- ===== src/Cache/Codecs.antt =====
-- internal/services/cache/codecs.go: the codecs by name and version, and the bytes with a version in
-- front. The codecs themselves, gob and JSON, are parameters; a value stands for what it is decoded
-- into.
pub mod RoundTrip
use go_backend_core.Prelude.{
  ℕ, Bool, true, false, Option, none, some, List, [], ◌∷◌, String, if◌then◌else◌,
}
use go_backend_core.Prelude.Equality.{string_eq, nat_eq}
use go_backend_core.Prelude.Dict.{Dict, read, write}
use go_backend_core.Prelude.Result.{Result, ok, err, ◌>>=◌}

abbrev pub Bytes : Type 0
Bytes = List ℕ

pub data CodecError : Type 0 where
  failed empty_data legacy_failed : CodecError
  version_failed : ℕ → CodecError

pub record Codec (V : Type 0) : Type 0 where
  pub encode : V → Result CodecError Bytes
  pub decode : Bytes → Result CodecError V
  pub version : ℕ
  pub name : String

-- The two maps of the package, and the codec of data without a version.
pub record Registry (V : Type 0) : Type 0 where
  pub by_version : Dict ℕ (Codec V)
  pub by_name : Dict String (Codec V)
  pub legacy_gob : Codec V

module _ {V : Type 0} where
  -- With gob and JSON registered.
  unfoldable pub initial_registry : Codec V → Codec V → Registry V
  initial_registry gob json = record {
    by_version = (1, gob) ∷ (2, json) ∷ [];
    by_name = ("gob", gob) ∷ ("json", json) ∷ [];
    legacy_gob = gob;
  }

  unfoldable pub register_codec : Codec V → Registry V → Registry V
  register_codec c r = record r {
    by_version = write c.version c r.by_version;
    by_name = write c.name c r.by_name;
  }

  unfoldable pub get_codec : String → Registry V → Option (Codec V)
  get_codec name r = read name r.by_name

  unfoldable pub get_codec_by_ver : ℕ → Registry V → Option (Codec V)
  get_codec_by_ver ver r = read ver r.by_version

  unfoldable pub encode_with : Codec V → V → Result CodecError Bytes
  encode_with codec value = codec.encode value >>= (λ payload. ok (codec.version ∷ payload))

  -- An error of the codec is wrapped.
  abbrev pub wrapped : CodecError → Result CodecError V → Result CodecError V
  wrapped e (ok value) = ok value
  wrapped e (err inner) = err e

  -- The first byte, the rest, and the codec of that version.
  abbrev pub decode_by : Codec V → ℕ → Bytes → Option (Codec V) → Result CodecError V
  decode_by legacy ver [] codec = wrapped legacy_failed (legacy.decode (ver ∷ []))
  decode_by legacy ver (b ∷ rest) none = wrapped legacy_failed (legacy.decode (ver ∷ b ∷ rest))
  decode_by legacy ver (b ∷ rest) (some codec) =
      wrapped (version_failed ver) (codec.decode (b ∷ rest))

  unfoldable pub decode_with : Registry V → Bytes → Result CodecError V
  decode_with r [] = err empty_data
  decode_with r (ver ∷ rest) = decode_by r.legacy_gob ver rest (get_codec_by_ver ver r)
