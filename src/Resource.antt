-- ===== src/Resource.antt =====
-- crates/zhir-core/src/resource.rs: immutable resource references and media chunks.
use Prim.Native.Char.{code}
use zhir.Prelude.{
  ℕ, String, Bool, ◌||◌, Option, List, Map, is_empty, ltb, length, ◌==◌, if◌then◌else◌, same,
  String-discrete, ℕ_discrete,
}
use zhir.Error.{Result, ok, invalid, refuse_if, ◌>>◌}
use zhir.Value.{Json, is_null}
use zhir.Profile.{ResourceUsage}

-- A byte is a number below 256.
pub data ResourceSource (V : Type 0) : Type 0 where
  inline : (bytes : List ℕ) → ResourceSource V
  url : (url : String) → ResourceSource V
  stored : (key : String) → ResourceSource V
  provider : (provider : String) (reference : V) → ResourceSource V

pub record ResourceRef (V : Type 0) : Type 0 where
  pub id : String
  pub media_type : String
  pub name : Option String
  pub source : ResourceSource V
  pub metadata : Map String V

pub record ResourceInput (V : Type 0) : Type 0 where
  pub resource : ResourceRef V
  pub usage : ResourceUsage V

pub record MediaChunk : Type 0 where
  pub stream_id : String
  pub session_id : String
  pub epoch : ℕ
  pub sequence : ℕ
  pub timestamp_us : ℕ
  pub media_type : String
  pub bytes : List ℕ
  pub end : Bool

-- `MediaChunk::validate`
unfoldable pub validate_chunk : MediaChunk → ℕ → Result (Unit {0})
unfolding is_empty
validate_chunk c max_bytes =
    refuse_if
      (is_empty c.stream_id
        || is_empty c.session_id
        || is_empty c.media_type
        || ltb max_bytes (length c.bytes))
      (invalid "invalid media chunk or chunk limit exceeded")

-- `media_type.split('/').next()`: the text before the first slash.
before_slash : String → String
before_slash String.[] = String.[]
before_slash (String.◌∷◌ c s) = if code c == b'/' then String.[] else String.◌∷◌ c (before_slash s)

unfoldable pub modality : {V : Type 0} → ResourceRef V → String
unfolding before_slash String-discrete
modality r =
    let head = before_slash r.media_type in
    if same String-discrete head "image"
    then "image"
    else if same String-discrete head "audio"
    then "audio"
    else if same String-discrete head "video"
    then "video"
    else "file"

module _ {V : Type 0} ⦃j : Json V⦄ where
  validate_source : ResourceSource V → Result (Unit {0})
  unfolding is_empty
  validate_source (url u) = refuse_if (is_empty u) (invalid "empty resource URL")
  validate_source (stored key) = refuse_if (is_empty key) (invalid "empty stored resource key")
  validate_source (provider p reference) =
      refuse_if (is_empty p || is_null reference) (invalid "invalid provider resource")
  validate_source (inline bytes) = ok tt

  -- `ResourceRef::validate`
  unfoldable pub validate_resource : ResourceRef V → Result (Unit {0})
  unfolding validate_source is_empty
  validate_resource r = do
    refuse_if (is_empty r.id || is_empty r.media_type)
        (invalid "resource identity and media type are required")
    validate_source r.source

  unfoldable pub ResourceRef-discrete : Discrete (ResourceRef V)
  ResourceRef-discrete = hlevel (String-discrete, ℕ_discrete, j.discrete)
