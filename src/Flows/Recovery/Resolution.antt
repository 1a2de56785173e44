-- ===== src/Flows/Recovery/Resolution.antt =====
-- Registered definitions and the Flow Runs that pin them, flows/recovery.py.
use base_agent.Base.{
  ℕ, String, false, some, List, [], ◌∷◌, In, here, there, ◌==◌, string_eq, pair_eq, ==_sound,
  ==_of_eq, ok, ◌≡◌, refl, sym, ap, ◌∙◌, subst, arith, Bool-cases, inl, inr, ok_inj, >>=-eq-ok,
}
use base_agent.Base.Dict.{lookup, insert, lookup-insert, lookup-insert_self}
use base_agent.Flows.Contracts.{FlowDefinition}
use base_agent.Flows.Lifecycle.State.{FlowRunState}
use base_agent.Flows.Lifecycle.Transitions.{create, initial_state}
use base_agent.Flows.Lifecycle.Valid.{create_total}
use base_agent.Flows.Recovery.Registry.{
  Registry, identity, identity_eq, conflicts, register, register_all, new_registry, resolve,
  validate_resolved_definition,
}

-- A registry has a definition of this identity and this fingerprint.
pub record HasDefinition (registry : Registry) (key : String × String) (fingerprint : String)
    : Type 0 where
  pub definition : FlowDefinition
  pub found : lookup key registry ≡ some definition
  pub keyed : identity definition ≡ key
  pub same_content : definition.fingerprint ≡ fingerprint

register-ok :
    (registry : Registry) (d : FlowDefinition) (next : Registry)
    → register registry d ≡ ok next
    → (conflicts (lookup (identity d) registry) d ≡ false) × (next ≡ insert (identity d) d registry)
unfolding register
register-ok registry d next h = (ground arith, ground arith)

register_adds :
    (registry : Registry) (d : FlowDefinition) (next : Registry)
    → register registry d ≡ ok next
    → HasDefinition next (identity d) d.fingerprint
register_adds registry d next h = record {
  definition = d;
  found =
      ap (λ m. lookup (identity d) m) (register-ok registry d next h).1
      ∙ lookup-insert_self (identity d) d registry;
  keyed = refl;
  same_content = refl;
}

no_conflict :
    (existing d : FlowDefinition)
    → conflicts (some existing) d ≡ false
    → existing.fingerprint ≡ d.fingerprint
no_conflict existing d h = ==_sound existing.fingerprint d.fingerprint (ground arith)

register_keeps :
    (registry : Registry) (d : FlowDefinition) (next : Registry) (key : String × String)
    (fingerprint : String)
    → register registry d ≡ ok next
    → HasDefinition registry key fingerprint
    → HasDefinition next key fingerprint
register_keeps registry d next key fingerprint h old =
    let (fine, stored) = register-ok registry d next h in
    let placed = ap (λ m. lookup key m) stored in
    elim (Bool-cases (identity d == key)) [
      | inl hit ↦
          let own : identity d ≡ key = ==_sound (identity d) key hit in
          let seen = ap (λ k. lookup k registry) own ∙ old.found in
          record {
            definition = d;
            found = placed ∙ rw (lookup-insert (identity d) key d registry, hit) refl;
            keyed = own;
            same_content =
                sym (no_conflict old.definition d (ap (λ o. conflicts o d) (sym seen) ∙ fine))
                ∙ old.same_content;
          }
      | inr miss ↦ record {
        definition = old.definition;
        found = placed ∙ rw (lookup-insert (identity d) key d registry, miss) old.found;
        keyed = old.keyed;
        same_content = old.same_content;
      }
    ]

register_all_keeps :
    (registry : Registry) (ds : List FlowDefinition) (last : Registry) (key : String × String)
    (fingerprint : String)
    → register_all registry ds ≡ ok last
    → HasDefinition registry key fingerprint
    → HasDefinition last key fingerprint
unfolding register_all
register_all_keeps registry [] last key fingerprint h old =
    subst (λ r. HasDefinition r key fingerprint) (ok_inj h) old
register_all_keeps registry (d ∷ ds) last key fingerprint h old =
    let (next, step, rest) = >>=-eq-ok (register registry d) _ h in
    register_all_keeps next ds last key fingerprint rest
      (register_keeps registry d next key fingerprint step old)

register_all_has :
    (registry : Registry) (ds : List FlowDefinition) (last : Registry) (d : FlowDefinition)
    → register_all registry ds ≡ ok last
    → In d ds
    → HasDefinition last (identity d) d.fingerprint
unfolding register_all
register_all_has registry [] last d h k = elim k [ ]
register_all_has registry (e ∷ ds) last d h here =
    let (next, step, rest) = >>=-eq-ok (register registry d) _ h in
    register_all_keeps next ds last (identity d) d.fingerprint rest
      (register_adds registry d next step)
register_all_has registry (e ∷ ds) last d h (there k) =
    let (next, step, rest) = >>=-eq-ok (register registry e) _ h in
    register_all_has next ds last d rest k

resolved :
    (registry : Registry) (d : FlowDefinition)
    → (has : HasDefinition registry (identity d) d.fingerprint)
    → resolve registry d.id d.version ≡ ok has.definition
unfolding resolve
resolved registry d has = rw has.found refl

accepted :
    (d e : FlowDefinition) (run_id now : ℕ)
    → identity e ≡ identity d
    → e.fingerprint ≡ d.fingerprint
    → validate_resolved_definition e (initial_state d run_id now) ≡ ok tt
unfolding validate_resolved_definition
accepted d e run_id now same content =
    rw (==_of_eq (ap (λ k. k.0) same), ==_of_eq (ap (λ k. k.1) same), ==_of_eq content) refl

-- When a registry is built from a list of definitions, a Flow Run that is created from one of them
-- resolves its pinned definition in it, with the content it was created with, and the check
-- of the resolved definition accepts it, whatever else the list registers.
pub new_registry-resolve :
    (ds : List FlowDefinition) (registry : Registry) (d : FlowDefinition) (run_id now : ℕ)
    (s : FlowRunState)
    → new_registry ds ≡ ok registry
    → In d ds
    → create d run_id now ≡ ok s
    → (e : FlowDefinition) × (resolve registry s.definition_id s.definition_version ≡ ok e)
      × (e.fingerprint ≡ d.fingerprint)
      × (validate_resolved_definition e s ≡ ok tt)
unfolding new_registry
new_registry-resolve ds registry d run_id now s h k c =
    let has = register_all_has [] ds registry d h k in
    let built : initial_state d run_id now ≡ s = ok_inj (sym (create_total d run_id now) ∙ c) in
    subst
      (λ t.
        (e : FlowDefinition) × (resolve registry t.definition_id t.definition_version ≡ ok e)
        × (e.fingerprint ≡ d.fingerprint)
        × (validate_resolved_definition e t ≡ ok tt))
      built
      (
        has.definition,
        resolved registry d has,
        has.same_content,
        accepted d has.definition run_id now has.keyed has.same_content,
      )
