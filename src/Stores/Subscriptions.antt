-- ===== src/Stores/Subscriptions.antt =====
-- What a subscriber of InMemoryEventStore, stores/in_memory.py, yields while events are emitted.
use base_agent.Base.{
  ℕ, suc, ◌+◌, ◌<◌, Bool, true, false, ◌||◌, List, [], ◌∷◌, ◌++◌, length, length-append, drop,
  any_of, ◌≡◌, refl, ap, ◌∙◌, subst, arith, Bool-cases, inl, inr,
}
use base_agent.Models.Event.{RuntimeEvent}
use base_agent.Flows.Repository.Consistent.{IsLog}
use base_agent.Stores.Events.{Subscriber, is_stream_end, is_permanent_end, yield_batch, poll}

-- The log and a subscriber after any emits and passes. Each event that is appended has the Run's id and
-- the next number.
pub data Watched (run_id : ℕ) (start : Subscriber) : List RuntimeEvent → Subscriber → Type 0 where
  starts : (log : List RuntimeEvent) → IsLog run_id 1 log → Watched run_id start log start
  emits :
      {log : List RuntimeEvent} {s : Subscriber} (e : RuntimeEvent)
      → Watched run_id start log s
      → e.run_id ≡ run_id
      → e.sequence ≡ length log + 1
      → Watched run_id start (log ++ e ∷ []) s
  polls :
      {log : List RuntimeEvent} {s : Subscriber}
      → Watched run_id start log s
      → Watched run_id start log (poll log s)

abbrev pub has_end : List RuntimeEvent → Bool
has_end = any_of (λ e. is_stream_end e.type)

abbrev pub has_permanent_end : List RuntimeEvent → Bool
has_permanent_end = any_of (λ e. is_permanent_end e.type)

-- No event but the last ends the stream.
abbrev pub EndsOnlyLast : List RuntimeEvent → Type 0
EndsOnlyLast [] = Unit {0}
EndsOnlyLast (e ∷ es) = (is_stream_end e.type ≡ true → es ≡ []) × EndsOnlyLast es

pub any_of-snoc :
    (p : RuntimeEvent → Bool) (xs : List RuntimeEvent) (e : RuntimeEvent)
    → any_of p (xs ++ e ∷ []) ≡ (any_of p xs || p e)
any_of-snoc p [] e = ground arith
any_of-snoc p (x ∷ xs) e = ground (arith, any_of-snoc p xs e)

EndsOnlyLast-snoc :
    (xs : List RuntimeEvent) (e : RuntimeEvent) → has_end xs ≡ false → EndsOnlyLast (xs ++ e ∷ [])
EndsOnlyLast-snoc [] e h = (λ ends. refl, tt)
EndsOnlyLast-snoc (x ∷ xs) e h =
    let goes_on : is_stream_end x.type ≡ false = ground arith in
    (λ ends. absurd (cc (ends, goes_on)), EndsOnlyLast-snoc xs e (ground arith))

-- What the subscriber has yielded, as a part of the log: it follows what was skipped, without a gap.
pub record Delivered (skipped log : List RuntimeEvent) (s : Subscriber) : Type 0 where
  pub rest : List RuntimeEvent
  pub split : log ≡ (skipped ++ s.yielded) ++ rest
  pub counted : s.next_sequence ≡ suc (length skipped + length s.yielded)
  pub ended : has_end s.yielded ≡ true → s.returned ≡ true
  pub only_last : EndsOnlyLast s.yielded
  pub reason : s.returned ≡ true → (has_end s.yielded || has_permanent_end log) ≡ true

-- Or the log has not got to the start yet, and nothing has been yielded.
pub data IsFaithful (after : ℕ) (log : List RuntimeEvent) (s : Subscriber) : Type 0 where
  early :
      length log < after
      → s.yielded ≡ []
      → s.next_sequence ≡ suc after
      → (s.returned ≡ true → has_permanent_end log ≡ true)
      → IsFaithful after log s
  delivered :
      (skipped : List RuntimeEvent)
      → length skipped ≡ after
      → Delivered skipped log s
      → IsFaithful after log s

pub IsLog-split :
    (id start : ℕ) (xs ys : List RuntimeEvent)
    → IsLog id start (xs ++ ys)
    → IsLog id (length xs + start) ys
IsLog-split id start [] ys h = subst (λ n. IsLog id n ys) (omega arith) h
IsLog-split id start (x ∷ xs) ys h =
    subst (λ n. IsLog id n ys) (omega arith) (IsLog-split id (suc start) xs ys h.2)

pub drop-length : (xs ys : List RuntimeEvent) → drop (length xs) (xs ++ ys) ≡ ys
drop-length [] ys = refl
drop-length (x ∷ xs) ys = drop-length xs ys

snoc-shift :
    (xs ys : List RuntimeEvent) (e : RuntimeEvent) (zs : List RuntimeEvent)
    → (xs ++ ys) ++ e ∷ zs ≡ (xs ++ (ys ++ e ∷ [])) ++ zs
snoc-shift [] [] e zs = refl
snoc-shift [] (y ∷ ys) e zs = ap (λ k. y ∷ k) (snoc-shift [] ys e zs)
snoc-shift (x ∷ xs) ys e zs = ap (λ k. x ∷ k) (snoc-shift xs ys e zs)

-- A batch, from a subscriber that has not returned.
pub yield_batch-Delivered :
    (run_id : ℕ) (skipped log batch : List RuntimeEvent) (s : Subscriber)
    → log ≡ (skipped ++ s.yielded) ++ batch
    → s.next_sequence ≡ suc (length skipped + length s.yielded)
    → s.returned ≡ false
    → has_end s.yielded ≡ false
    → EndsOnlyLast s.yielded
    → IsLog run_id (suc (length skipped + length s.yielded)) batch
    → (d : Delivered skipped log (yield_batch batch s)) × ((yield_batch batch s).returned ≡ false
        → d.rest ≡ [])
unfolding yield_batch
yield_batch-Delivered run_id skipped log [] s split counted live none_yet last numbered = (
  record {
    rest = [];
    split = split;
    counted = counted;
    ended = λ h. absurd (cc (h, none_yet));
    only_last = last;
    reason = λ h. absurd (cc (h, live));
  },
  λ h. refl,
)
yield_batch-Delivered run_id skipped log (e ∷ batch) s split counted live none_yet last numbered =
    elim (Bool-cases (is_stream_end e.type)) [
      | inl ends ↦ rw ends (
        record {
          rest = batch;
          split = moved;
          counted = next;
          ended = λ h. refl;
          only_last = EndsOnlyLast-snoc s.yielded e none_yet;
          reason =
              λ h. rw (any_of-snoc (λ k. is_stream_end k.type) s.yielded e, none_yet, ends) refl;
        },
        λ h. absurd (cc (h)),
      )
      | inr goes_on ↦ rw goes_on (
          yield_batch-Delivered run_id skipped log batch
            (record {
              next_sequence = e.sequence + 1;
              yielded = s.yielded ++ e ∷ [];
              returned = false;
            })
            moved next refl
            (rw (any_of-snoc (λ k. is_stream_end k.type) s.yielded e, none_yet, goes_on) refl)
            (EndsOnlyLast-snoc s.yielded e none_yet)
            (subst (λ n. IsLog run_id n batch) (omega (arith, length-append s.yielded (e ∷ [])))
              numbered.2))
    ]
  where
    moved : log ≡ (skipped ++ (s.yielded ++ e ∷ [])) ++ batch
    moved = split ∙ snoc-shift skipped s.yielded e batch

    next : e.sequence + 1 ≡ suc (length skipped + length (s.yielded ++ e ∷ []))
    next = omega (arith, numbered.1, length-append s.yielded (e ∷ []))
