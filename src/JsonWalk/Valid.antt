-- ===== src/JsonWalk/Valid.antt =====
-- JSON stays JSON: the checks behind the redaction and the restoration of _token.py.
use credential_proxy.Prelude.{◌≡◌, true, some, [], ◌∷◌, Text, Dict, lstrip, arith}
use credential_proxy.Substitute.{substitute}
use credential_proxy.JsonWalk.{
  Json, Codec, strip_bom, opens, validate_json_roundtrip, cred_json_walk, json_aware,
}

-- An object or an array in JSON, which both parsers accept.
abbrev pub IsJson : Codec → Text → Type 0
IsJson codec s = (opens (lstrip (strip_bom s)) ≡ true) × (codec.is_json (strip_bom s) ≡ true)

module _ (codec : Codec) where
  validate_json_roundtrip-is_json :
      (original output : Text)
      → IsJson codec original
      → codec.is_json (strip_bom (validate_json_roundtrip codec original output)) ≡ true
  unfolding validate_json_roundtrip
  validate_json_roundtrip-is_json original output (bracket, valid) = ground arith

  -- If a text is an object or an array in JSON, which the parser reads, and the printer prints
  -- what the walk makes of it, the redacted or restored text is JSON again, for any mapping.
  pub json_aware-is_json :
      (mapping : Dict Text) (s out : Text) (obj : Json)
      → IsJson codec s
      → codec.loads (strip_bom s) ≡ some obj
      → codec.dumps (cred_json_walk codec (λ t. some (substitute mapping t)) obj) ≡ some out
      → codec.is_json (strip_bom (json_aware codec mapping s)) ≡ true
  unfolding json_aware
  json_aware-is_json [] s out obj valid parsed printed = valid.1
  json_aware-is_json (e ∷ rest) s out obj valid parsed printed =
      ground (arith, validate_json_roundtrip-is_json s out valid)
