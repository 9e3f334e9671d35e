-- ===== src/Reactions.antt =====
-- The Matrix reaction keys of _sse.py (lines 35-39), as code points.
use credential_proxy.Prelude.{Bool, List, [], ◌∷◌, Text, codes, any, text_eq}

abbrev pub reaction_approve : Text
reaction_approve = codes "✅"

abbrev pub reaction_reject : Text
reaction_reject = codes "❎"

abbrev pub reaction_auto_unlock : Text
reaction_auto_unlock = codes "🔓"

abbrev pub all_reactions : List Text
all_reactions = reaction_approve ∷ reaction_reject ∷ reaction_auto_unlock ∷ []

-- `key in ALL_REACTIONS`
unfoldable pub is_reaction : Text → Bool
unfolding text_eq
is_reaction key = any (text_eq key) all_reactions
