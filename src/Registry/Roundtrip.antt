-- ===== src/Registry/Roundtrip.antt =====
-- Loading what was saved (`_save_caller_registry`, `_load_caller_registry`).
use credential_proxy.Prelude.{
  ◌≡◌, ◌≢◌, refl, true, none, some, [], ◌∷◌, ◌++◌, map, Text, Dict, text_eq_iff, text_eq_refl,
  truthy, lookup, insert, insert_absent, values, All, Unique, lookup-append, arith, ap, ◌∙◌,
}
use mathlib.Core.List.{append-nil, append_assoc}
use credential_proxy.Registry.Store.{
  Caller, Document, stored_of, document, Tables, no_tables, load_caller, load_callers, load,
}

-- What is left of a registration in the file: the description is not written.
abbrev pub without_description : Caller → Caller
without_description c = record c { description = [] }

-- A registration stands under its own id, which is not empty.
abbrev pub Loadable : Text × Caller → Type 0
Loadable e = (e.1.reg_id ≡ e.0) × (truthy e.0 ≡ true)

abbrev pub restored : Dict Caller → Dict Caller
restored = map (λ e. (e.0, without_description e.1))

-- No key of `d` is one of `t`.
abbrev Apart : Dict Caller → Dict Caller → Type 0
Apart t d = All (λ e. lookup e.0 t ≡ none) d

Apart-append :
    (t d : Dict Caller) (k : Text) (c : Caller)
    → Apart t d
    → lookup k d ≡ none
    → Apart (t ++ (k, c) ∷ []) d
unfolding lookup
Apart-append t [] k c a h = tt
Apart-append t ((j, w) ∷ d) k c a h = (
  ground (arith, lookup-append j j t ((k, c) ∷ []), text_eq_iff j k, text_eq_iff k j),
  Apart-append t d k c a.1 (ground arith),
)

abbrev with_caller : Text → Caller → Tables → Tables
with_caller k c t = record {
  callers = t.callers ++ (k, without_description c) ∷ [];
  by_path = insert c.script_path k t.by_path;
  by_name = insert c.name k t.by_name;
}

load_caller-stored_of :
    (k : Text) (c : Caller) (t : Tables)
    → Loadable (k, c)
    → lookup k t.callers ≡ none
    → load_caller (stored_of c) t ≡ with_caller k c t
unfolding load_caller stored_of
load_caller-stored_of k c t l a =
    ground (arith, insert_absent k (without_description c) t.callers a)

load_callers-restored :
    (d : Dict Caller) (t : Tables)
    → Unique d
    → All Loadable d
    → Apart t.callers d
    → (load_callers (map stored_of (values d)) t).callers ≡ t.callers ++ restored d
unfolding load_callers
load_callers-restored [] t u l a = rw append-nil
load_callers-restored ((k, c) ∷ d) t u l a =
    ap (λ x. (load_callers (map stored_of (values d)) x).callers)
      (load_caller-stored_of k c t l.0 a.0)
    ∙ load_callers-restored d (with_caller k c t) u.1 l.1 (Apart-append t.callers d k _ a.1 u.0)
    ∙ append_assoc t.callers _ _

no_tables-Apart : (d : Dict Caller) → Apart [] d
unfolding lookup
no_tables-Apart [] = tt
no_tables-Apart (e ∷ d) = (refl, no_tables-Apart d)

-- If every registration stands once, under its own id, which is not empty, loading the file that
-- was saved gives back every registration under its id, in the same order, but without its
-- description; the digest of what is read passes the check.
pub load-document :
    (digest : Document → Text) (updated_at : Text) (d : Dict Caller)
    → Unique d
    → All Loadable d
    → (load digest (some (document digest updated_at (values d)))).callers ≡ restored d
unfolding load document
load-document digest updated_at d u l =
    rw text_eq_refl (load_callers-restored d no_tables u l (no_tables-Apart d))

-- A file whose integrity field is not the digest of the rest is read as an empty registry.
pub load_tampered :
    (digest : Document → Text) (d : Document) (stored : Text)
    → d.integrity ≡ some stored
    → stored ≢ digest (record d { integrity = none })
    → load digest (some d) ≡ no_tables
unfolding load
load_tampered digest d stored e ne =
    ground (arith, text_eq_iff stored (digest (record d { integrity = none })))
