-- ===== src/Credential/Query.antt =====
-- `_query_and_return` of _credential.py. What PyKeePass does is given: whether the database was
-- opened, the entry that was found, and which methods its entries have.
pub mod Props
pub mod Hidden
use credential_proxy.Prelude.{
  ℕ, Bool, true, false, ◌||◌, not, Option, none, some, List, [], ◌∷◌, Text, Dict, codes, truthy,
  if◌then◌else◌, text_eq, lookup, insert, any, is_some,
}
use credential_proxy.Token.{Tokens, Outcome, token, value_error, maybe_register}
use credential_proxy.Proxy.{Proxy}
use credential_proxy.Credential.Reply.{Response, Error, EntryReply, fail, value, full_entry}

-- A custom property: what `get_custom_property` and `is_custom_property_protected` return.
pub record Custom : Type 0 where
  pub text : Option Text
  pub protected : Bool

-- An entry; the attributes may be `None`.
pub record KeepassEntry : Type 0 where
  pub title : Option Text
  pub username : Option Text
  pub password : Option Text
  pub url : Option Text
  pub custom : Dict Custom

-- The methods that the installed PyKeePass has.
pub record Library : Type 0 where
  pub installed : Bool
  pub has_protected : Bool
  pub has_custom : Bool

-- How opening and searching the database ended.
pub data Search : Type 0 where
  not_opened : Search
  not_searched : Search
  searched : Option KeepassEntry → Search

-- `x or ''`
abbrev pub or_empty : Option Text → Text
or_empty none = []
or_empty (some t) = t

-- The value of a field: a text, `None`, or an exception.
pub data Field : Type 0 where
  found : Text → Field
  missing : Field
  raised : Field

abbrev pub field_of : Tokens × Outcome → Tokens × Field
field_of (s, token t) = (s, found t)
field_of (s, value_error) = (s, raised)

-- A property that is not among those built in.
unfoldable pub custom_value : Library → KeepassEntry → Text → Bool → Tokens → Tokens × Field
custom_value lib e field use_token s =
    if lib.has_protected
    then elim (lookup field e.custom) [
      | none ↦ (s, missing)
      | some c ↦ elim c.text [
        | none ↦ (s, missing)
        | some v ↦ if c.protected then field_of (maybe_register v use_token s) else (s, found v)
      ]
    ]
    else if lib.has_custom
    then elim (lookup field e.custom) [
      | none ↦ (s, missing)
      | some c ↦ elim c.text [
        | none ↦ (s, missing)
        | some v ↦ if truthy v then field_of (maybe_register v use_token s) else (s, missing)
      ]
    ]
    else (s, missing)

unfoldable pub field_value : Library → KeepassEntry → Text → Bool → Tokens → Tokens × Field
unfolding custom_value text_eq
field_value lib e field use_token s =
    if text_eq field (codes "password")
    then field_of (maybe_register (or_empty e.password) use_token s)
    else if text_eq field (codes "username")
    then (s, found (or_empty e.username))
    else if text_eq field (codes "title")
    then (s, found (or_empty e.title))
    else if text_eq field (codes "url")
    then (s, found (or_empty e.url))
    else custom_value lib e field use_token s

abbrev pub field_reply : Text → Field → Response
field_reply field (found v) = value v
field_reply field missing = fail 404 (Error.no_field field)
field_reply field raised = fail 500 Error.keepass_failed

-- The loop over the custom properties; `none` where a registration raised.
abbrev pub add_prop : Text → Tokens × Outcome → Dict Text → Tokens × Option (Dict Text)
add_prop k (s, token t) props = (s, some (insert k t props))
add_prop k (s, value_error) props = (s, none)

unfoldable pub props_step :
    Library → Bool → Text → Custom → Dict Text → Tokens → Tokens × Option (Dict Text)
props_step lib use_token k c props s = elim c.text [
  | none ↦ (s, some props)
  | some v ↦
      if truthy v
      then if c.protected || not lib.has_protected
        then add_prop k (maybe_register v use_token s) props
        else (s, some (insert k v props))
      else (s, some props)
]

unfoldable pub props_from :
    Library → Bool → Dict Custom → Dict Text → Tokens → Tokens × Option (Dict Text)
unfolding props_step
props_from lib use_token [] props s = (s, some props)
props_from lib use_token ((k, c) ∷ cs) props s =
    let (s', step) = props_step lib use_token k c props s in
    elim step [ none ↦ (s', none) | some props' ↦ props_from lib use_token cs props' s' ]

abbrev pub props_of : Library → Bool → KeepassEntry → Tokens → Tokens × Option (Dict Text)
props_of lib use_token e s =
    if lib.has_protected || lib.has_custom
    then props_from lib use_token e.custom [] s
    else (s, some [])

-- The whole entry, once its custom properties are there.
abbrev pub entry_with : KeepassEntry → Dict Text → Tokens × Outcome → Tokens × Response
entry_with e props (s, token t) = (
  s,
  full_entry (record {
    title = or_empty e.title;
    username = or_empty e.username;
    password = t;
    url = or_empty e.url;
    custom_properties = props;
  }),
)
entry_with e props (s, value_error) = (s, fail 500 Error.keepass_failed)

unfoldable pub whole_entry : Library → Bool → KeepassEntry → Tokens → Tokens × Response
unfolding props_from
whole_entry lib use_token e s =
    let (s', props) = props_of lib use_token e s in
    elim props [
      | none ↦ (s', fail 500 Error.keepass_failed)
      | some ps ↦ entry_with e ps (maybe_register (or_empty e.password) use_token s')
    ]

-- The answer for an entry that was found. The empty text for `field` asks for the whole entry.
unfoldable pub answer : Library → KeepassEntry → Text → Bool → Tokens → Tokens × Response
unfolding field_value whole_entry
answer lib e field use_token s =
    if truthy field
    then (let (s', v) = field_value lib e field use_token s in (s', field_reply field v))
    else whole_entry lib use_token e s

-- The whole method; `configured` says whether there is a database file.
unfoldable pub query_and_return :
    Bool → Library → Search → Text → Text → Bool → Proxy → Proxy × Response
unfolding answer
query_and_return false lib search entry_name field use_token p = (p, fail 503 Error.no_database)
query_and_return true lib search entry_name field use_token p =
    if not lib.installed then (p, fail 503 Error.no_pykeepass) else elim search [
      | not_opened ↦ (p, fail 500 Error.keepass_failed)
      | not_searched ↦ (record p { kp_cached = true }, fail 500 Error.keepass_failed)
      | searched none ↦ (record p { kp_cached = true }, fail 404 (Error.no_entry entry_name))
      | searched (some e) ↦
          let (s, r) = answer lib e field use_token p.tokens in
          (record p { kp_cached = true; tokens = s }, r)
    ]
