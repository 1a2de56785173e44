-- ===== src/Stores/Streams.antt =====
-- Histories of a subscriber of InMemoryEventStore, stores/in_memory.py, and of the emits beside it.
use base_agent.Base.{
  ℕ, zero, suc, ◌≤◌, ◌<◌, true, false, List, [], ◌∷◌, ◌++◌, length, length-append, take, drop, ltb,
  ◌≡◌, refl, sym, ap, ◌∙◌, subst, arith, Bool-cases, inl, inr, ok, ok_inj,
}
use mathlib.Core.List.{append-nil}
use base_agent.Base.Time.{ℤ}
use base_agent.Models.Event.{RuntimeEvent}
use base_agent.Flows.Repository.Consistent.{IsLog, IsLog-append}
use base_agent.Stores.Events.{Subscriber, is_permanent_end, poll, subscribe, subscriber}
use base_agent.Stores.Subscriptions.{
  Watched, starts, emits, polls, has_end, has_permanent_end, EndsOnlyLast, Delivered, IsFaithful,
  early, delivered, any_of-snoc, drop-length,
}
use base_agent.Stores.Passes.{poll_returned, poll_over, poll_waits, poll-Polled, emit-Delivered}

take-drop : (n : ℕ) (xs : List RuntimeEvent) → take n xs ++ drop n xs ≡ xs
take-drop zero xs = refl
take-drop (suc n) [] = refl
take-drop (suc n) (x ∷ xs) = ap (λ k. x ∷ k) (take-drop n xs)

length-take : (n : ℕ) (xs : List RuntimeEvent) → n ≤ length xs → length (take n xs) ≡ n
length-take zero xs h = refl
length-take (suc n) [] h = absurd (omega arith)
length-take (suc n) (x ∷ xs) h = ap suc (length-take n xs (omega arith))

drop_all : (n : ℕ) (xs : List RuntimeEvent) → length xs ≤ n → drop n xs ≡ []
drop_all zero [] h = refl
drop_all zero (x ∷ xs) h = absurd (omega arith)
drop_all (suc n) [] h = refl
drop_all (suc n) (x ∷ xs) h = drop_all n xs (omega arith)

-- A subscriber that has skipped the whole log, or more.
nothing_yet :
    (skipped log : List RuntimeEvent) (s : Subscriber)
    → log ≡ skipped
    → s.yielded ≡ []
    → s.next_sequence ≡ suc (length skipped)
    → (s.returned ≡ true → has_permanent_end log ≡ true)
    → Delivered skipped log s
nothing_yet skipped log s e none next reason = record {
  rest = [];
  split =
      e
      ∙ sym
          (append-nil (skipped ++ s.yielded) ∙ (ap (λ k. skipped ++ k) none ∙ append-nil skipped));
  counted = omega (arith, ap length none, next);
  ended = λ h. absurd (cc (h, ap has_end none));
  only_last = subst EndsOnlyLast (sym none) tt;
  reason = λ h. ground (arith, reason h);
}

starts-IsFaithful : (after : ℕ) (log : List RuntimeEvent) → IsFaithful after log (subscriber after)
starts-IsFaithful after log = elim (Bool-cases (ltb (length log) after)) [
  | inl short ↦ early (ground arith) refl (omega arith) (λ h. absurd (cc (h)))
  | inr reached ↦
      let n = length-take after log (ground arith) in
      delivered (take after log) n (record {
        rest = drop after log;
        split =
            sym (ap (λ k. k ++ drop after log) (append-nil (take after log)) ∙ take-drop after log);
        counted = omega (arith, n);
        ended = λ h. absurd (cc (h));
        only_last = tt;
        reason = λ h. absurd (cc (h));
      })
]

emits-IsFaithful :
    (after run_id : ℕ) (log : List RuntimeEvent) (s : Subscriber) (e : RuntimeEvent)
    → IsLog run_id 1 log
    → IsFaithful after log s
    → IsFaithful after (log ++ e ∷ []) s
emits-IsFaithful after run_id log s e numbered (delivered skipped n d) =
    delivered skipped n (emit-Delivered run_id skipped log s numbered d e)
emits-IsFaithful after run_id log s e numbered (early short none next reason) =
    let over : s.returned ≡ true → has_permanent_end (log ++ e ∷ []) ≡ true =
      λ h. ground (arith, reason h, any_of-snoc (λ k. is_permanent_end k.type) log e) in
    let longer = length-append log (e ∷ []) in
    elim (Bool-cases (ltb (length (log ++ e ∷ [])) after)) [
      | inl still ↦ early (ground arith) none next over
      | inr reached ↦
          let n : length (log ++ e ∷ []) ≡ after = ground (arith, longer) in
          delivered (log ++ e ∷ []) n
            (nothing_yet (log ++ e ∷ []) (log ++ e ∷ []) s refl none (next ∙ ap suc (sym n)) over)
    ]

-- A pass in a log that has not got to the start.
early_poll :
    (after : ℕ) (log : List RuntimeEvent) (s : Subscriber)
    → length log < after
    → s.yielded ≡ []
    → s.next_sequence ≡ suc after
    → (s.returned ≡ true → has_permanent_end log ≡ true)
    → ((poll log s).yielded ≡ [])
      × ((poll log s).next_sequence ≡ suc after)
      × ((poll log s).returned ≡ true → has_permanent_end log ≡ true)
early_poll after log s short none next reason = elim (Bool-cases s.returned) [
  | inl done ↦ subst P (sym (poll_returned log s done)) (none, next, reason)
  | inr live ↦
      let small : ltb (length log) s.next_sequence ≡ true = ground arith in
      elim (Bool-cases (has_permanent_end log)) [
        | inl over ↦ subst P (sym (poll_over log s live small over)) (none, next, λ h. over)
        | inr waits ↦ subst P (sym (poll_waits log s live small waits)) (none, next, reason)
      ]
]
  where
    P : Subscriber → Type 0
    P t =
        (t.yielded ≡ [])
        × (t.next_sequence ≡ suc after)
        × (t.returned ≡ true → has_permanent_end log ≡ true)

Watched-both :
    {run_id after : ℕ} {log : List RuntimeEvent} {s : Subscriber}
    → Watched run_id (subscriber after) log s
    → IsLog run_id 1 log × IsFaithful after log s
Watched-both {run_id} {after} (starts log numbered) = (numbered, starts-IsFaithful after log)
Watched-both {run_id} {after} (emits {log} {s} e before id sequence) =
    let (numbered, faithful) = Watched-both before in
    (
      IsLog-append run_id 1 log (e ∷ []) numbered (id, sequence, tt),
      emits-IsFaithful after run_id log s e numbered faithful,
    )
Watched-both {run_id} {after} (polls {log} {s} before) =
    let (numbered, faithful) = Watched-both before in
    (
      numbered,
      elim faithful [
        | early short none next reason ↦
            let (n, k, r) = early_poll after log s short none next reason in early short n k r
        | delivered skipped n d ↦
            delivered skipped n (poll-Polled run_id skipped log s numbered d).0
      ],
    )

-- Whatever is emitted between its passes, a subscriber has yielded the events of the log that follow
-- `after_sequence`, in order, without a gap or a repetition, up to its `next_sequence`; only the last of them may
-- end the stream, after which it returns, and it returns for no other reason than such an event or a
-- permanent end that the log already has.
pub subscribe-IsFaithful :
    (run_id after : ℕ) (start : Subscriber) (log : List RuntimeEvent) (s : Subscriber)
    → subscribe (ℤ.pos after) ≡ ok start
    → Watched run_id start log s
    → IsFaithful after log s
subscribe-IsFaithful run_id after start log s h watched =
    (Watched-both (subst (λ k. Watched run_id k log s) (sym (ok_inj h)) watched)).1

-- After a pass, a subscriber that has not returned has yielded every event of the log that follows
-- `after_sequence`.
pub poll-drop :
    (run_id after : ℕ) (start : Subscriber) (log : List RuntimeEvent) (s : Subscriber)
    → subscribe (ℤ.pos after) ≡ ok start
    → Watched run_id start log s
    → (poll log s).returned ≡ false
    → (poll log s).yielded ≡ drop after log
poll-drop run_id after start log s h watched live =
    let (numbered, faithful) =
      Watched-both (subst (λ k. Watched run_id k log s) (sym (ok_inj h)) watched) in
    elim faithful [
      | early short none next reason ↦
          (early_poll after log s short none next reason).0 ∙ sym (drop_all after log (omega arith))
      | delivered skipped n d ↦
          let (polled, all) = poll-Polled run_id skipped log s numbered d in
          let whole : log ≡ skipped ++ (poll log s).yielded =
            polled.split
            ∙ (ap (λ k. (skipped ++ (poll log s).yielded) ++ k) (all live)
                ∙ append-nil (skipped ++ (poll log s).yielded)) in
          sym (
            ap (drop after) whole
            ∙ (ap (λ k. drop k (skipped ++ (poll log s).yielded)) (sym n)
                ∙ drop-length skipped (poll log s).yielded))
    ]
