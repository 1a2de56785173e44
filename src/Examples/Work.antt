-- ===== src/Examples/Work.antt =====
-- The work source at concrete inputs: one command, claimed and completed.
use base_agent.Base.{
  ℕ, List, Bool, true, false, none, some, [], ◌∷◌, Error, ok, err, ◌≡◌, refl, subst, Succeeds,
  nat_eq, string_eq, option_eq, ◌≢◌, arith, if◌then◌else◌,
}
use base_agent.Base.Dict.{lookup, insert}
use base_agent.Base.Text.{is_blank, text_length}
use base_agent.Base.Time.{ℤ}
use base_agent.Models.Json.{Fields}
use base_agent.Flows.Work.Items.{
  FlowWorkKind, FlowWorkStatus, FlowWorkCommand, FlowWorkItem, has_same_intent,
  validate_delivery_arguments,
}
use base_agent.Flows.Work.Source.{FlowWorkSource, new_item, enqueue}
use base_agent.Flows.Work.Delivery.{
  claim, claimed_item, undelivered, complete, renew, earliest, require_delivery,
  require_active_delivery,
}
use base_agent.Flows.Work.Changes.{IsValid}
use base_agent.Flows.Work.Calls.{Call, enqueues, claims, renews, completes_item, perform}
use base_agent.Flows.Work.History.{empty, run, run-IsValid, perform-IsValid, perform-final}
use base_agent.Flows.Work.Fencing.{completes_work, move, claim-fences}
use base_agent.Flows.Work.Exclusion.{claim-excludes}
use base_agent.Flows.Work.Claims.{IsFirstClaim, claim-IsFirstClaim}
use base_agent.Flows.Work.Idempotence.{
  move-move_again, complete-run-complete, enqueue-enqueue_again,
}

-- Equality of the data of commands, which the code takes from JSON values: here of empty ones only.
abbrev no_data : Fields → Fields → Bool
no_data Fields.end Fields.end = true
no_data _ _ = false

abbrev command : FlowWorkCommand
command = record {
  id = 5;
  run_id = 7;
  kind = FlowWorkKind.execute;
  idempotency_key = "k";
  data_fields = Fields.end;
  created_at = 90;
}

abbrev queued : FlowWorkSource
queued = record {
  items = (5, new_item command 100) ∷ [];
  idempotency = ("k", 5) ∷ [];
  reviews = [];
  review_idempotency = [];
}

abbrev taken : FlowWorkItem
taken = claimed_item (new_item command 100) "a" (ℤ.pos 50) 110 3

abbrev claimed : FlowWorkSource
claimed = record queued { items = (5, taken) ∷ [] }

abbrev taken_again : FlowWorkItem
taken_again = claimed_item taken "b" (ℤ.pos 50) 170 4

abbrev claimed_again : FlowWorkSource
claimed_again = record queued { items = (5, taken_again) ∷ [] }

-- A second command, whose item is taken while the first is.
abbrev other : FlowWorkCommand
other = record command { id = 6; idempotency_key = "l" }

abbrev both : FlowWorkSource
both = record queued {
  items = (5, new_item command 100) ∷ (6, new_item other 101) ∷ [];
  idempotency = ("k", 5) ∷ ("l", 6) ∷ [];
}

abbrev both_first : FlowWorkSource
both_first = record both { items = (5, taken) ∷ (6, new_item other 101) ∷ [] }

abbrev other_taken : FlowWorkItem
other_taken = claimed_item (new_item other 101) "b" (ℤ.pos 50) 120 4

abbrev taken_renewed : FlowWorkItem
taken_renewed = record taken { lease_expires_at = some 176; updated_at = 116 }

abbrev both_taken : FlowWorkSource
both_taken = record both { items = (5, taken_renewed) ∷ (6, other_taken) ∷ [] }

abbrev done : FlowWorkItem
done = undelivered taken FlowWorkStatus.completed 120

abbrev finished : FlowWorkSource
finished = record queued { items = (5, done) ∷ [] }

enqueued : enqueue no_data empty command 100 ≡ ok (queued, new_item command 100)
unfolding enqueue lookup insert
enqueued = refl

claims_queued : claim queued "a" (ℤ.pos 50) 110 3 ≡ ok (claimed, some taken)
unfolding claim insert earliest validate_delivery_arguments is_blank text_length
claims_queued = refl

claims_both : claim both "a" (ℤ.pos 50) 110 3 ≡ ok (both_first, some taken)
unfolding claim insert earliest validate_delivery_arguments is_blank text_length
claims_both = refl

-- A completion under a token that is not the one of the item, which fails, and a renewal under its own.
abbrev between : List Call
between = completes_item 5 9 115 ∷ renews 5 3 (ℤ.pos 60) 116 ∷ []

claims_between :
    claim (run no_data both_first between) "b" (ℤ.pos 50) 120 4 ≡ ok (both_taken, some other_taken)
unfolding run perform complete renew require_delivery require_active_delivery claim lookup insert
    earliest validate_delivery_arguments is_blank text_length
claims_between = refl

-- The finished item beside another one.
abbrev beside_other : FlowWorkSource
beside_other = record finished { items = (6, new_item other 130) ∷ (5, done) ∷ [] }

found_beside : lookup 5 beside_other.items ≡ some done
unfolding lookup
found_beside = refl

claims_none : claim claimed "b" (ℤ.pos 50) 120 4 ≡ ok (claimed, none)
unfolding claim insert earliest validate_delivery_arguments is_blank text_length
claims_none = refl

completes_claimed : move claimed 5 3 120 completes_work ≡ ok (finished, done)
unfolding complete lookup insert require_delivery
completes_claimed = refl

performs : perform no_data claimed (completes_item 5 3 120) ≡ ok finished
unfolding perform complete lookup insert require_delivery
performs = refl

run_two : run no_data empty (enqueues command 100 ∷ enqueues other 101 ∷ []) ≡ both
unfolding run perform enqueue lookup insert
run_two = refl

run_claim : run no_data empty (enqueues command 100 ∷ claims "a" (ℤ.pos 50) 110 3 ∷ []) ≡ claimed
unfolding run perform enqueue lookup insert claim earliest validate_delivery_arguments is_blank
    text_length
run_claim = refl

both-IsValid : IsValid both
both-IsValid =
    subst IsValid run_two (run-IsValid no_data (enqueues command 100 ∷ enqueues other 101 ∷ []))

claimed-IsValid : IsValid claimed
claimed-IsValid =
    subst IsValid run_claim
      (run-IsValid no_data (enqueues command 100 ∷ claims "a" (ℤ.pos 50) 110 3 ∷ []))

finished-IsValid : IsValid finished
finished-IsValid =
    perform-IsValid no_data claimed (completes_item 5 3 120) finished claimed-IsValid performs

found_done : lookup 5 finished.items ≡ some done
unfolding lookup
found_done = refl

perform_again : perform no_data finished (completes_item 5 3 130) ≡ ok finished
unfolding perform complete lookup insert require_delivery
perform_again = refl

tokens_differ : ◌≢◌ {A = ℕ} 9 3
tokens_differ = omega arith

claim-IsFirstClaim_example : IsFirstClaim both both_first "a" (ℤ.pos 50) 110 3 taken
claim-IsFirstClaim_example =
    claim-IsFirstClaim both "a" (ℤ.pos 50) 110 3 both_first taken both-IsValid claims_both

work_run-IsValid_example : IsValid (run no_data empty (enqueues command 100 ∷ []))
work_run-IsValid_example = run-IsValid no_data (enqueues command 100 ∷ [])

perform-final_example : lookup 5 finished.items ≡ some done
perform-final_example =
    perform-final no_data finished (completes_item 5 3 130) finished 5 done finished-IsValid
      perform_again found_done refl refl

claim-fences_example : ¬ Succeeds (move claimed 5 9 120 completes_work)
claim-fences_example =
    claim-fences queued "a" (ℤ.pos 50) 110 3 claimed taken 9 120 completes_work claims_queued
      tokens_differ

claim-excludes_example : ◌≢◌ {A = ℕ} 6 5
claim-excludes_example =
    claim-excludes no_data both "a" (ℤ.pos 50) 110 3 both_first taken between "b" (ℤ.pos 50) 120 4
      both_taken other_taken both-IsValid claims_both refl (omega arith) claims_between

move-move_again_example : move beside_other 5 3 400 completes_work ≡ ok (beside_other, done)
move-move_again_example =
    move-move_again claimed 5 3 120 completes_work finished done beside_other 400 refl
      completes_claimed found_beside

complete-run-complete_example :
    complete (run no_data finished (enqueues other 130 ∷ [])) 5 3 400
    ≡ ok (run no_data finished (enqueues other 130 ∷ []), done)
complete-run-complete_example =
    complete-run-complete no_data claimed 5 3 120 finished done (enqueues other 130 ∷ []) 400
      claimed-IsValid completes_claimed refl

enqueue-enqueue_again_example : enqueue no_data queued command 300 ≡ (
    if has_same_intent no_data command command
    then ok (queued, new_item command 100)
    else err Error.flow_work_idempotency_conflict)
enqueue-enqueue_again_example =
    enqueue-enqueue_again no_data empty command 100 queued (new_item command 100) command 300
      enqueued refl
