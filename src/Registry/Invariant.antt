-- ===== src/Registry/Invariant.antt =====
-- The indexes of the registry agree with its registrations, through every operation that
-- _registry.py performs on them.
use credential_proxy.Prelude.{
  ◌≡◌, refl, true, false, none, some, inl, inr, Text, text_eq, text_eq_iff, lookup, insert, erase,
  lookup-insert, lookup-erase, lookup-insert_self, Bool-cases, Option-cases, arith, ap, [],
}
use credential_proxy.Registry.Store.{Caller, Document}
use credential_proxy.Registry.{
  Registry, register_caller, activate_caller, revoke_caller, resolve_caller, resolve_hash_change,
}

-- Registrations stand under their own id, an index entry leads to a registration with that name
-- or path, and every registration is found by its name.
pub record IsConsistent (r : Registry) : Type 0 where
  pub keyed : (k : Text) (c : Caller) → lookup k r.callers ≡ some c → c.reg_id ≡ k
  pub named :
      (n k : Text)
      → lookup n r.by_name ≡ some k
      → (c : Caller) × (lookup k r.callers ≡ some c) × (c.name ≡ n)
  pub pathed :
      (p k : Text)
      → lookup p r.by_path ≡ some k
      → (c : Caller) × (lookup k r.callers ≡ some c) × (c.script_path ≡ p)
  pub covered :
      (k : Text) (c : Caller) → lookup k r.callers ≡ some c → lookup c.name r.by_name ≡ some k

-- What a change of one registration must leave alone to keep the indexes right.
pub record SameKeys (c d : Caller) : Type 0 where
  pub reg_id : d.reg_id ≡ c.reg_id
  pub name : d.name ≡ c.name
  pub script_path : d.script_path ≡ c.script_path

module _ (c : Caller) (r : Registry) where
  -- A registration under a new id and a new name keeps the registry consistent.
  pub register_caller-IsConsistent :
      lookup c.reg_id r.callers ≡ none
      → lookup c.name r.by_name ≡ none
      → IsConsistent r
      → IsConsistent (register_caller c r)
  unfolding register_caller
  register_caller-IsConsistent new_id new_name v = record {
    keyed = λ k x h.
        ground (arith, lookup-insert c.reg_id k new r.callers, text_eq_iff k c.reg_id, v.keyed k x);
    named = λ n k h. elim (Bool-cases (text_eq n c.name)) [
      | inl e ↦ (
        new,
        ground (
          arith,
          lookup-insert c.name n c.reg_id r.by_name,
          lookup-insert_self c.reg_id new r.callers,
        ),
        ground (arith, text_eq_iff n c.name),
      )
      | inr e ↦
          let (x, p, q) = v.named n k (ground (arith, lookup-insert c.name n c.reg_id r.by_name)) in
          (x, ground (arith, lookup-insert c.reg_id k new r.callers, text_eq_iff k c.reg_id), q)
    ];
    pathed = λ n k h. elim (Bool-cases (text_eq n c.script_path)) [
      | inl e ↦ (
        new,
        ground (
          arith,
          lookup-insert c.script_path n c.reg_id r.by_path,
          lookup-insert_self c.reg_id new r.callers,
        ),
        ground (arith, text_eq_iff n c.script_path),
      )
      | inr e ↦
          let (x, p, q) =
            v.pathed n k (ground (arith, lookup-insert c.script_path n c.reg_id r.by_path)) in
          (x, ground (arith, lookup-insert c.reg_id k new r.callers, text_eq_iff k c.reg_id), q)
    ];
    covered = λ k x h. ground (
      arith,
      lookup-insert c.reg_id k new r.callers,
      text_eq_iff k c.reg_id,
      lookup-insert c.name x.name c.reg_id r.by_name,
      text_eq_iff x.name c.name,
      v.covered k x,
    );
  }
    where
      new : Caller
      new = record c {
        script_hash_old = [];
        hash_change_at = 0;
        hash_change_notified = false;
        enabled = false;
      }

module _ {r r' : Registry} (k : Text) (c : Caller) (held : lookup k r.callers ≡ some c)
    (v : IsConsistent r) where
  replace-IsConsistent :
      (d : Caller)
      → SameKeys c d
      → r'.callers ≡ insert k d r.callers
      → r'.by_name ≡ r.by_name
      → r'.by_path ≡ r.by_path
      → IsConsistent r'
  replace-IsConsistent d same e f g = record {
    keyed = λ j x h. ground (
      arith,
      lookup-insert k j d r.callers,
      text_eq_iff j k,
      v.keyed j x,
      v.keyed k c held,
      ap (lookup j) e,
      same.reg_id,
    );
    named = λ n j h. elim (Bool-cases (text_eq j k)) [
      | inl at ↦
          let (x, p, q) = v.named n j (ground (arith, ap (lookup n) f)) in
          (
            d,
            ground (arith, ap (lookup j) e, lookup-insert k j d r.callers),
            ground (arith, text_eq_iff j k, same.name),
          )
      | inr off ↦
          let (x, p, q) = v.named n j (ground (arith, ap (lookup n) f)) in
          (x, ground (arith, ap (lookup j) e, lookup-insert k j d r.callers), q)
    ];
    pathed = λ n j h. elim (Bool-cases (text_eq j k)) [
      | inl at ↦
          let (x, p, q) = v.pathed n j (ground (arith, ap (lookup n) g)) in
          (
            d,
            ground (arith, ap (lookup j) e, lookup-insert k j d r.callers),
            ground (arith, text_eq_iff j k, same.script_path),
          )
      | inr off ↦
          let (x, p, q) = v.pathed n j (ground (arith, ap (lookup n) g)) in
          (x, ground (arith, ap (lookup j) e, lookup-insert k j d r.callers), q)
    ];
    covered = λ j x h. ground (
      arith,
      lookup-insert k j d r.callers,
      text_eq_iff j k,
      v.covered j x,
      v.covered k c held,
      ap (lookup j) e,
      ap (lookup x.name) f,
      same.name,
    );
  }

  erase-IsConsistent :
      r'.callers ≡ erase k r.callers
      → r'.by_name ≡ erase c.name r.by_name
      → r'.by_path ≡ erase c.script_path r.by_path
      → IsConsistent r'
  erase-IsConsistent e f g = record {
    keyed = λ j x h. ground (arith, lookup-erase k j r.callers, v.keyed j x, ap (lookup j) e);
    named = λ n j h.
        let (x, p, q) =
          v.named n j (ground (arith, ap (lookup n) f, lookup-erase c.name n r.by_name)) in
        (
          x,
          ground (
            arith,
            ap (lookup j) e,
            lookup-erase k j r.callers,
            text_eq_iff j k,
            ap (lookup n) f,
            lookup-erase c.name n r.by_name,
            text_eq_iff n c.name,
          ),
          q,
        );
    pathed = λ n j h.
        let (x, p, q) =
          v.pathed n j (ground (arith, ap (lookup n) g, lookup-erase c.script_path n r.by_path)) in
        (
          x,
          ground (
            arith,
            ap (lookup j) e,
            lookup-erase k j r.callers,
            text_eq_iff j k,
            ap (lookup n) g,
            lookup-erase c.script_path n r.by_path,
            text_eq_iff n c.script_path,
          ),
          q,
        );
    covered = λ j x h. ground (
      arith,
      lookup-erase k j r.callers,
      text_eq_iff j k,
      ap (lookup j) e,
      ap (lookup x.name) f,
      lookup-erase c.name x.name r.by_name,
      text_eq_iff x.name c.name,
      v.covered j x,
      v.covered k c held,
    );
  }

resolve_caller-SameKeys :
    (new_hash reaction : Text) (c : Caller) → SameKeys c (resolve_caller new_hash reaction c)
unfolding resolve_caller
resolve_caller-SameKeys new_hash reaction c = record {
  reg_id = ground arith;
  name = ground arith;
  script_path = ground arith;
}

module _ (digest : Document → Text) (updated_at k : Text) (r : Registry) where
  pub activate_caller-IsConsistent :
      IsConsistent r → IsConsistent (activate_caller digest updated_at k r)
  unfolding activate_caller
  activate_caller-IsConsistent v = elim (Option-cases (lookup k r.callers)) [
    | inl e ↦ rw (e, activate_caller) v
    | inr (c, e) ↦
        rw (e, activate_caller)
          (replace-IsConsistent k c e v (record c { enabled = true })
            (record { reg_id = refl; name = refl; script_path = refl }) refl refl refl)
  ]

  pub revoke_caller-IsConsistent :
      IsConsistent r → IsConsistent (revoke_caller digest updated_at k r).0
  unfolding revoke_caller
  revoke_caller-IsConsistent v = elim (Option-cases (lookup k r.callers)) [
    | inl e ↦ rw (e, revoke_caller) v
    | inr (c, e) ↦ rw (e, revoke_caller) (erase-IsConsistent k c e v refl refl refl)
  ]

  pub resolve_hash_change-IsConsistent :
      (new_hash reaction : Text)
      → IsConsistent r
      → IsConsistent (resolve_hash_change digest updated_at k new_hash reaction r)
  unfolding resolve_hash_change
  resolve_hash_change-IsConsistent new_hash reaction v = elim (Option-cases (lookup k r.callers)) [
    | inl e ↦ rw (e, resolve_hash_change) v
    | inr (c, e) ↦
        rw (e, resolve_hash_change)
          (replace-IsConsistent k c e v (resolve_caller new_hash reaction c)
            (resolve_caller-SameKeys new_hash reaction c) refl refl refl)
  ]
