-- ===== src/Tests/Texts.antt =====
-- The walk over JSON and the tokens of personal data.
use credential_proxy.Prelude.{
  ℕ, ◌≡◌, ◌≤◌, ◌<◌, ◌⊎◌, refl, Bool, true, false, Option, none, some, List, [], ◌∷◌, Text, Dict,
  codes, text_eq, lookup, if◌then◌else◌, arith,
}
use credential_proxy.JsonWalk.{
  Json, text, object, array, other, no_members, member, no_items, item, Codec, strip_bom,
  cred_json_walk, json_walk, json_aware,
}
use credential_proxy.JsonWalk.Shape.{SameShape, IsRewritten, json_walk-SameShape}
use credential_proxy.JsonWalk.Valid.{IsJson}
use credential_proxy.Substitute.{substitute}
use credential_proxy.Token.Pairing.{nil-IsPaired}
use credential_proxy.PiiTokens.{PiiTokens, register}
use credential_proxy.PiiTokens.Paired.{IsValid, register-IsValid}

-- A parser and a printer that know one array with one text.
unfoldable small_loads : Text → Option Json
unfolding text_eq
small_loads s =
    if text_eq s (codes "[ab]") then some (array (item (text (codes "ab")) no_items)) else none

unfoldable small_dumps : Json → Option Text
small_dumps (array (item (text s) no_items)) = some (codes "[tok]")
small_dumps (text s) = some s
small_dumps j = none

unfoldable small_is_json : Text → Bool
unfolding text_eq
small_is_json s = if text_eq s (codes "[ab]") then true else text_eq s (codes "[tok]")

abbrev small : Codec
small = record { loads = small_loads; dumps = small_dumps; is_json = small_is_json }

abbrev nested_value : Json
nested_value = object (
    member (codes "k") (array (item (text (codes "[ab]")) (item (other (codes "1")) no_items)))
      no_members)

abbrev mapping : Dict Text
mapping = (codes "ab", codes "tok") ∷ []

json_walk-SameShape_example :
    SameShape
      (IsRewritten small (λ t. some (substitute mapping t)))
      nested_value
      (json_walk small (λ t. some (substitute mapping t)) 5 nested_value)
json_walk-SameShape_example =
    json_walk-SameShape small (λ t. some (substitute mapping t)) 5 nested_value

array-IsJson : IsJson small (codes "[ab]")
unfolding credential_proxy.JsonWalk.opens credential_proxy.Prelude.lstrip strip_bom
    credential_proxy.Prelude.is_space small_is_json
array-IsJson = (refl, refl)

array_parsed :
    small_loads (strip_bom (codes "[ab]")) ≡ some (array (item (text (codes "ab")) no_items))
unfolding small_loads strip_bom
array_parsed = refl

array_printed :
    small_dumps (
      cred_json_walk small
        (λ t. some (substitute mapping t))
        (array (item (text (codes "ab")) no_items)))
    ≡ some (codes "[tok]")
unfolding small_dumps json_walk
array_printed = refl

abbrev no_data : PiiTokens
no_data = record { pii_p2t = []; pii_t2p = []; resp_p2t = []; resp_t2p = []; seq = 0; pii_lru = 0 }

no_data-IsValid : IsValid no_data
no_data-IsValid = record {
  requests = record { paired = nil-IsPaired; bounded = omega arith };
  responses = record { paired = nil-IsPaired; bounded = omega arith };
}

register-IsValid_example : IsValid (register (codes "a@b.c") (codes "0123abcd") false no_data).0
register-IsValid_example =
    register-IsValid (codes "a@b.c") (codes "0123abcd") false no_data no_data-IsValid
