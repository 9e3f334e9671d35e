-- ===== src/JsonWalk.antt =====
-- utils/json_walk.py, and the JSON-aware redaction and restoration of _token.py. The parser and
-- the printer (orjson or json) are parameters; paths serve the log only and are left out.
pub mod Shape
pub mod Valid
use credential_proxy.Prelude.{
  ℕ, zero, suc, ◌+◌, Bool, true, false, ◌||◌, not, Option, none, some, List, [], ◌∷◌, Text, Dict,
  ◌==◌, if◌then◌else◌, text_eq, starts_with, lstrip, strip,
}
use credential_proxy.Substitute.{substitute}

-- A parsed value. `other` is a number, a Boolean or null.
mutual
  pub data Json : Type 0 where
    text : Text → Json
    object : Members → Json
    array : Items → Json
    other : Text → Json

  pub data Members : Type 0 where
    no_members : Members
    member : Text → Json → Members → Members

  pub data Items : Type 0 where
    no_items : Items
    item : Json → Items → Items

-- `_jloads` and `_jdumps` (`none`: they raise), and whether `json.loads` accepts a text.
pub record Codec : Type 0 where
  pub loads : Text → Option Json
  pub dumps : Json → Option Text
  pub is_json : Text → Bool

-- `s.lstrip('\ufeff')`
unfoldable pub strip_bom : Text → Text
strip_bom [] = []
strip_bom (c ∷ s) = let rest = strip_bom s in if c == 0xfeff then rest else c ∷ s

-- `s.startswith(('{', '['))`
unfoldable pub opens : Text → Bool
opens [] = false
opens (c ∷ s) = (c == 123) || (c == 91)

-- The recursion over objects and arrays, which leaves the depth alone.
unfoldable mutual
  pub walk_with : (Text → Text) → Json → Json
  walk_with at (text s) = text (at s)
  walk_with at (object ms) = object (walk_members at ms)
  walk_with at (array xs) = array (walk_items at xs)
  walk_with at (other s) = other s

  pub walk_members : (Text → Text) → Members → Members
  walk_members at no_members = no_members
  walk_members at (member k v ms) = member k (walk_with at v) (walk_members at ms)

  pub walk_items : (Text → Text) → Items → Items
  walk_items at no_items = no_items
  walk_items at (item x xs) = item (walk_with at x) (walk_items at xs)

module _ (codec : Codec) where
  -- `_validate_json_roundtrip`
  unfoldable pub validate_json_roundtrip : Text → Text → Text
  unfolding opens strip_bom lstrip
  validate_json_roundtrip original output =
      if not (opens (lstrip (strip_bom original)))
      then output
      else if not (codec.is_json (strip_bom original))
      then output
      else if codec.is_json (strip_bom output)
      then output
      else original

  module _ (leaf_fn : Text → Option Text) where
    -- A text that is not walked into; it stays where `leaf_fn` raises or its result does not print.
    unfoldable pub leaf : Text → Text
    leaf s = elim (leaf_fn s) [
      | none ↦ s
      | some new_s ↦
          if text_eq new_s s
          then new_s
          else elim (codec.dumps (text new_s)) [ none ↦ s | some printed ↦ new_s ]
    ]

    -- A nested text that was walked: it is checked against the text it came from.
    unfoldable pub reprinted : Text → Text → Json → Text
    unfolding validate_json_roundtrip leaf
    reprinted s inner walked = elim (codec.dumps walked) [
      | none ↦ leaf s
      | some out ↦ validate_json_roundtrip inner out
    ]

    -- The string case of `_json_walk_impl`; the number says how many levels of texts within texts
    -- may still be opened, that is `depth_limit + 1 - _depth`.
    unfoldable pub walk_text : ℕ → Text → Text
    unfolding reprinted walk_with strip_bom opens
    walk_text zero s = leaf s
    walk_text (suc levels) s =
        let inner = strip (strip_bom s) in
        let at = walk_text levels in
        if opens inner
        then elim (codec.loads inner) [
          | some (object ms) ↦ reprinted s inner (object (walk_members at ms))
          | some (array xs) ↦ reprinted s inner (array (walk_items at xs))
          | _ ↦ leaf s
        ]
        else leaf s

    -- `json_walk(obj, leaf_fn, depth_limit)`, as long as the interpreter's stack is deep enough.
    unfoldable pub json_walk : ℕ → Json → Json
    unfolding walk_text
    json_walk depth_limit obj = walk_with (walk_text (depth_limit + 1)) obj

  -- `_cred_json_walk`
  abbrev pub cred_json_walk : (Text → Option Text) → Json → Json
  cred_json_walk redact_func = json_walk redact_func 5

  -- `_redact_json_aware` and `_restore_json_aware` with a mapping that the caller gives.
  unfoldable pub json_aware : Dict Text → Text → Text
  unfolding json_walk validate_json_roundtrip
  json_aware [] s = s
  json_aware (e ∷ rest) s =
      let mapping = e ∷ rest in
      if not (opens (lstrip (strip_bom s)))
      then substitute mapping s
      else elim (codec.loads (strip_bom s)) [
        | none ↦ substitute mapping s
        | some obj ↦ elim (codec.dumps (cred_json_walk (λ t. some (substitute mapping t)) obj)) [
          | none ↦ substitute mapping s
          | some out ↦ validate_json_roundtrip s out
        ]
      ]

  abbrev pub redact_json_aware : Dict Text → Text → Text
  redact_json_aware = json_aware

  abbrev pub restore_json_aware : Dict Text → Text → Text
  restore_json_aware = json_aware
