-- ===== src/Tests/Dotdot.antt =====
-- The rewriting of paths in _audit.py on concrete texts.
use credential_proxy.Prelude.{◌≡◌, refl, false, [], Text, codes, inl, inr}
use credential_proxy.Audit.Dotdot.{normalize_dotdot, normpath, dotdot_part}
use credential_proxy.Audit.Dotdot.Words.{fix_paths, normalize_dotdot-fix_paths}
use credential_proxy.Audit.Dotdot.Removed.{has_part-normalize_dotdot}
use credential_proxy.PiiTokens.{has_part}

abbrev climbing : Text
climbing = codes "cat /tmp/../etc/./passwd x"

rewritten :
    (normalize_dotdot climbing ≡ codes "cat /etc/passwd x")
    × (normalize_dotdot (codes "a/../../b") ≡ codes "../b")
    × (normalize_dotdot (codes "/..") ≡ codes "/..")
    × (normpath (codes "///a//b/") ≡ codes "/a/b")
    × (normpath [] ≡ codes ".")
unfolding normalize_dotdot normpath has_part
rewritten = (refl, refl, refl, refl, refl)

normalize_dotdot-fix_paths_example : normalize_dotdot climbing ≡ fix_paths [] climbing
normalize_dotdot-fix_paths_example = normalize_dotdot-fix_paths climbing

has_part-normalize_dotdot_example : has_part dotdot_part (normalize_dotdot climbing) ≡ false
unfolding has_part credential_proxy.Audit.Dotdot.initial_slashes
    credential_proxy.Audit.Dotdot.Removed.paths_of
has_part-normalize_dotdot_example =
    has_part-normalize_dotdot climbing (inl refl, (inr refl, (inl refl, tt)))
