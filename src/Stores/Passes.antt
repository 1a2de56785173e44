-- ===== src/Stores/Passes.antt =====
-- One pass of a subscriber of InMemoryEventStore, stores/in_memory.py, and one emit beside it.
use base_agent.Base.{
  ℕ, ◌+◌, ◌-◌, ◌<◌, true, false, List, [], ◌∷◌, ◌++◌, length, length-append, drop, ltb,
  if◌then◌else◌, ◌≡◌, refl, sym, ap, ◌∙◌, subst, arith, Bool-cases, inl, inr,
}
use mathlib.Core.List.{append_assoc}
use base_agent.Models.Event.{RuntimeEvent}
use base_agent.Flows.Repository.Consistent.{IsLog}
use base_agent.Stores.Events.{Subscriber, is_permanent_end, yield_batch, poll}
use base_agent.Stores.Subscriptions.{
  has_end, has_permanent_end, Delivered, any_of-snoc, IsLog-split, drop-length,
  yield_batch-Delivered,
}

-- The branches of one pass.
pub poll_returned : (log : List RuntimeEvent) (s : Subscriber) → s.returned ≡ true → poll log s ≡ s
unfolding poll
poll_returned log s done =
    ap
      (λ b.
        if b
        then s
        else (if ltb (length log) s.next_sequence
            then (if has_permanent_end log then record s { returned = true } else s)
            else yield_batch (drop (s.next_sequence - 1) log) s))
      done

poll_short :
    (log : List RuntimeEvent) (s : Subscriber)
    → s.returned ≡ false
    → ltb (length log) s.next_sequence ≡ true
    → poll log s ≡ (if has_permanent_end log then record s { returned = true } else s)
unfolding poll
poll_short log s live short =
    ap
      (λ b.
        if b
        then s
        else (if ltb (length log) s.next_sequence
            then (if has_permanent_end log then record s { returned = true } else s)
            else yield_batch (drop (s.next_sequence - 1) log) s))
      live
    ∙ ap
        (λ b.
          if b
          then (if has_permanent_end log then record s { returned = true } else s)
          else yield_batch (drop (s.next_sequence - 1) log) s)
        short

poll_enough :
    (log : List RuntimeEvent) (s : Subscriber)
    → s.returned ≡ false
    → ltb (length log) s.next_sequence ≡ false
    → poll log s ≡ yield_batch (drop (s.next_sequence - 1) log) s
unfolding poll
poll_enough log s live enough =
    ap
      (λ b.
        if b
        then s
        else (if ltb (length log) s.next_sequence
            then (if has_permanent_end log then record s { returned = true } else s)
            else yield_batch (drop (s.next_sequence - 1) log) s))
      live
    ∙ ap
        (λ b.
          if b
          then (if has_permanent_end log then record s { returned = true } else s)
          else yield_batch (drop (s.next_sequence - 1) log) s)
        enough

pub poll_over :
    (log : List RuntimeEvent) (s : Subscriber)
    → s.returned ≡ false
    → ltb (length log) s.next_sequence ≡ true
    → has_permanent_end log ≡ true
    → poll log s ≡ record s { returned = true }
poll_over log s live short over =
    poll_short log s live short ∙ ap (λ b. if b then record s { returned = true } else s) over

pub poll_waits :
    (log : List RuntimeEvent) (s : Subscriber)
    → s.returned ≡ false
    → ltb (length log) s.next_sequence ≡ true
    → has_permanent_end log ≡ false
    → poll log s ≡ s
poll_waits log s live short waits =
    poll_short log s live short ∙ ap (λ b. if b then record s { returned = true } else s) waits

-- A subscriber after a pass: it has got all of the log unless it has returned.
abbrev pub Polled : List RuntimeEvent → List RuntimeEvent → Subscriber → Type 0
Polled skipped log t = (d : Delivered skipped log t) × (t.returned ≡ false → d.rest ≡ [])

module _ (run_id : ℕ) (skipped log : List RuntimeEvent) (s : Subscriber)
    (numbered : IsLog run_id 1 log) (d : Delivered skipped log s) where
  log_length : length log ≡ length skipped + length s.yielded + length d.rest
  log_length = omega (
    arith,
    ap length d.split,
    length-append (skipped ++ s.yielded) d.rest,
    length-append skipped s.yielded,
  )

  none_left : length log < s.next_sequence → d.rest ≡ []
  none_left h = go d.rest (omega (arith, log_length, d.counted))
    where
      go : (xs : List RuntimeEvent) → length xs ≡ 0 → xs ≡ []
      go [] e = refl
      go (x ∷ xs) e = absurd (omega arith)

  batch_is_rest : drop (s.next_sequence - 1) log ≡ d.rest
  batch_is_rest =
      ap (λ n. drop n log) (omega (arith, d.counted, length-append skipped s.yielded))
      ∙ (ap (drop (length (skipped ++ s.yielded))) d.split
          ∙ drop-length (skipped ++ s.yielded) d.rest)

  pub poll-Polled : Polled skipped log (poll log s)
  poll-Polled = elim (Bool-cases s.returned) [
    | inl done ↦
        subst (Polled skipped log) (sym (poll_returned log s done)) (d, λ h. absurd (cc (h, done)))
    | inr live ↦ elim (Bool-cases (ltb (length log) s.next_sequence)) [
      | inl short ↦ elim (Bool-cases (has_permanent_end log)) [
        | inl over ↦ subst (Polled skipped log) (sym (poll_over log s live short over)) (
          record {
            rest = d.rest;
            split = d.split;
            counted = d.counted;
            ended = λ h. refl;
            only_last = d.only_last;
            reason = λ h. ground arith;
          },
          λ h. absurd (cc (h)),
        )
        | inr waits ↦
            subst (Polled skipped log) (sym (poll_waits log s live short waits))
              (d, λ h. none_left (ground arith))
      ]
      | inr enough ↦
          subst (Polled skipped log)
            (sym (poll_enough log s live enough ∙ ap (λ k. yield_batch k s) batch_is_rest))
            (yield_batch-Delivered run_id skipped log d.rest s d.split d.counted live
              (elim (Bool-cases (has_end s.yielded)) [
                | inl e ↦ absurd (cc (d.ended e, live))
                | inr e ↦ e
              ])
              d.only_last
              (subst (λ n. IsLog run_id n d.rest) (omega (arith, length-append skipped s.yielded))
                (IsLog-split run_id 1 (skipped ++ s.yielded) d.rest
                  (subst (IsLog run_id 1) d.split numbered))))
    ]
  ]

  pub emit-Delivered : (e : RuntimeEvent) → Delivered skipped (log ++ e ∷ []) s
  emit-Delivered e = record {
    rest = d.rest ++ e ∷ [];
    split = ap (λ k. k ++ e ∷ []) d.split ∙ append_assoc (skipped ++ s.yielded) d.rest (e ∷ []);
    counted = d.counted;
    ended = d.ended;
    only_last = d.only_last;
    reason = λ h. ground (arith, d.reason h, any_of-snoc (λ k. is_permanent_end k.type) log e);
  }
