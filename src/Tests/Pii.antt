-- ===== src/Tests/Pii.antt =====
-- The detector of _pii.py on a message with a phone number, an address and a secret.
use credential_proxy.Prelude.{
  ℕ, ◌+◌, ◌≡◌, ◌≢◌, refl, Bool, true, false, Option, none, some, List, [], ◌∷◌, ◌++◌, Text, Dict,
  codes, length, arith, lookup, All,
}
use credential_proxy.Pii.Span.{Span}
use credential_proxy.Pii.Custom.{Strikes, finished}
use credential_proxy.Pii.Scan.{Found, Dictionary, scan_spans}
use credential_proxy.Pii.Replace.{detect_and_redact}
use credential_proxy.Pii.Replace.Spec.{
  Redacted, StandsIn, detect_and_redact-Redacted, detect_and_redact_keeps_secret,
}
use credential_proxy.PiiTokens.{PiiTokens}

abbrev message : Text
message = codes "pw hunter2 call 13800138000 or 13800138001"

abbrev phone : Span
phone = record { kind = codes "phone"; value = codes "13800138000"; start = 16; stop = 27 }

abbrev inner : Span
inner = record { kind = codes "tail"; value = codes "8000"; start = 23; stop = 27 }

abbrev found : Found
found = record {
  coarse = true;
  protected = [];
  combined = phone ∷ [];
  custom = record { name = codes "tail"; matches = inner ∷ []; ended = finished } ∷ [];
  dict = record { kind = []; value = codes "hunter2"; start = 3; stop = 10 } ∷ [];
  in_url_query = λ t. false;
  ip_address = λ t. none;
}

abbrev names : Dictionary
names = record {
  entries = (codes "hunter2", codes "hostname") ∷ [];
  hardening = false;
  is_alnum = λ c. false;
}

abbrev secrets : Dict Text
secrets = (codes "hunter2", codes "__VG_CRED_000001__") ∷ []

abbrev no_strikes : Strikes
no_strikes = record { custom_strikes = []; custom_disabled = [] }

abbrev no_pii : PiiTokens
no_pii = record { pii_p2t = []; pii_t2p = []; resp_p2t = []; resp_t2p = []; seq = 0; pii_lru = 0 }

abbrev rand : ℕ → Text
rand n = codes "1336ed19"

-- The longer span wins, and the secret stays for the redaction of secrets.
message_redacted :
    (detect_and_redact found names secrets false rand message no_strikes no_pii).2
    ≡ some (codes "pw hunter2 call __PII_1_1336ed19__ or 13800138001")
unfolding detect_and_redact credential_proxy.Pii.Choose.selected lookup
    credential_proxy.PiiTokens.register credential_proxy.Prelude.insert
message_redacted = refl

detect_and_redact-Redacted_example :
    (table : Dict Text) × (out : Text) × ((detect_and_redact found names secrets false rand message
        no_strikes no_pii).2
      ≡ some out)
    × Redacted false rand no_pii message
        (scan_spans found names secrets message no_strikes).0
        table
        out
unfolding scan_spans credential_proxy.PiiTokens.looks_like_token
detect_and_redact-Redacted_example =
    detect_and_redact-Redacted found names secrets false rand message no_strikes no_pii
      (((refl, refl), tt), ((((refl, refl), tt), tt), ((refl, refl), tt))) (refl, (refl, tt))

detect_and_redact_keeps_secret_example :
    (out : Text) × ((detect_and_redact found names secrets false rand message no_strikes no_pii).2
      ≡ some out)
    × StandsIn (codes "hunter2") out
unfolding lookup credential_proxy.Prelude.text_eq scan_spans
    credential_proxy.PiiTokens.looks_like_token
detect_and_redact_keeps_secret_example =
    detect_and_redact_keeps_secret found names secrets false rand 104 (codes "unter2") (codes "pw ")
      (codes " call 13800138000 or 13800138001") (codes "__VG_CRED_000001__") no_strikes no_pii refl
      (((refl, refl), tt), ((((refl, refl), tt), tt), ((refl, refl), tt))) (refl, (refl, tt))
