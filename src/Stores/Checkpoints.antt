-- ===== src/Stores/Checkpoints.antt =====
-- InMemoryCheckpointStore of stores/in_memory.py. What a checkpoint holds beside its Run is a parameter.
use base_agent.Base.{
  ℕ, suc, ◌+◌, ◌≤◌, Option, none, some, [], ◌==◌, ==_sound, nat_eq, Result, Error, ok, ok_inj,
  ◌>>=◌, >>=-eq-ok, or_fail, or_fail-ok, if◌then◌else◌, ◌≡◌, sym, ap, ◌∙◌, subst, arith, Bool-cases,
  inl, inr,
}
use base_agent.Base.Dict.{Dict, lookup, insert, remove, lookup-insert, lookup-remove}

pub record RuntimeCheckpoint {ℓ} (S : Type ℓ) : Type ℓ where
  pub run_id : ℕ
  pub snapshot : S

module _ {ℓ} {S : Type ℓ} where
  unfoldable pub save :
      Dict ℕ (RuntimeCheckpoint S) → RuntimeCheckpoint S → Dict ℕ (RuntimeCheckpoint S)
  save checkpoints c = insert c.run_id c checkpoints

  unfoldable pub load : Dict ℕ (RuntimeCheckpoint S) → ℕ → Result (RuntimeCheckpoint S)
  load checkpoints run_id = or_fail (lookup run_id checkpoints) Error.checkpoint_not_found

  unfoldable pub claim :
      Dict ℕ (RuntimeCheckpoint S) → ℕ → Result (Dict ℕ (RuntimeCheckpoint S) × RuntimeCheckpoint S)
  claim checkpoints run_id = do
    c ← or_fail (lookup run_id checkpoints) Error.checkpoint_not_found
    ok (remove run_id checkpoints, c)

  unfoldable pub delete : Dict ℕ (RuntimeCheckpoint S) → ℕ → Dict ℕ (RuntimeCheckpoint S)
  delete checkpoints run_id = remove run_id checkpoints

  -- Calls in order, for one Run, with the number of checkpoints that were saved for it and the number of claims
  -- of it that returned.
  pub data Traced (run_id : ℕ) : Dict ℕ (RuntimeCheckpoint S) → (saved claimed : ℕ) → Type ℓ where
    new : Traced run_id [] 0 0
    saves :
        {checkpoints : Dict ℕ (RuntimeCheckpoint S)} {saved claimed : ℕ} (c : RuntimeCheckpoint S)
        → Traced run_id checkpoints saved claimed
        → Traced run_id
            (save checkpoints c)
            (if c.run_id == run_id then suc saved else saved)
            claimed
    claims :
        {checkpoints next : Dict ℕ (RuntimeCheckpoint S)} {saved claimed : ℕ} (other : ℕ)
        (c : RuntimeCheckpoint S)
        → Traced run_id checkpoints saved claimed
        → claim checkpoints other ≡ ok (next, c)
        → Traced run_id next saved (if other == run_id then suc claimed else claimed)
    deletes :
        {checkpoints : Dict ℕ (RuntimeCheckpoint S)} {saved claimed : ℕ} (other : ℕ)
        → Traced run_id checkpoints saved claimed
        → Traced run_id (delete checkpoints other) saved claimed

  -- One checkpoint that is stored, or none.
  abbrev stored_count : Option (RuntimeCheckpoint S) → ℕ
  stored_count none = 0
  stored_count (some c) = 1

  stored_count-small : (o : Option (RuntimeCheckpoint S)) → stored_count o ≤ 1
  stored_count-small none = omega arith
  stored_count-small (some c) = omega arith

  Traced-counts :
      {run_id saved claimed : ℕ} {checkpoints : Dict ℕ (RuntimeCheckpoint S)}
      → Traced run_id checkpoints saved claimed
      → claimed + stored_count (lookup run_id checkpoints) ≤ saved
  unfolding lookup save claim delete
  Traced-counts new = omega arith
  Traced-counts {run_id} (saves {checkpoints} {saved} {claimed} c before) =
      elim (Bool-cases (c.run_id == run_id)) [
        | inl same ↦
            rw (lookup-insert c.run_id run_id c checkpoints, same)
              (omega (arith, Traced-counts before))
        | inr other ↦ rw (lookup-insert c.run_id run_id c checkpoints, other) (Traced-counts before)
      ]
  Traced-counts {run_id} (claims {checkpoints} {next} {saved} {claimed} id c before h) =
      let (d, found, h1) =
        >>=-eq-ok (or_fail (lookup id checkpoints) Error.checkpoint_not_found) _ h in
      let stored = or_fail-ok (lookup id checkpoints) Error.checkpoint_not_found found in
      subst
        (λ k.
          (if id == run_id then suc claimed else claimed) + stored_count (lookup run_id k) ≤ saved)
        (ap (λ k. k.0) (ok_inj h1))
        (elim (Bool-cases (id == run_id)) [
          | inl same ↦
              rw (lookup-remove id run_id checkpoints, same)
                (omega (
                  arith,
                  Traced-counts before,
                  ap stored_count
                      (ap (λ k. lookup k checkpoints) (sym (==_sound id run_id same)) ∙ stored),
                ))
          | inr other ↦ rw (lookup-remove id run_id checkpoints, other) (Traced-counts before)
        ])
  Traced-counts {run_id} (deletes {checkpoints} {saved} {claimed} id before) =
      elim (Bool-cases (id == run_id)) [
        | inl same ↦
            rw (lookup-remove id run_id checkpoints, same) (omega (arith, Traced-counts before))
        | inr other ↦ rw (lookup-remove id run_id checkpoints, other) (Traced-counts before)
      ]

  -- However many workers claim, the checkpoint of a Run is claimed at most as often as one was saved for
  -- the Run.
  pub claimed_at_most_saved :
      {run_id saved claimed : ℕ} {checkpoints : Dict ℕ (RuntimeCheckpoint S)}
      → Traced run_id checkpoints saved claimed
      → claimed ≤ saved
  claimed_at_most_saved trace = omega (arith, Traced-counts trace)
