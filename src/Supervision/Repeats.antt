-- ===== src/Supervision/Repeats.antt =====
-- Histories of tool calls under the default supervisor, supervision/policies.py.
use base_agent.Base.{
  ℕ, suc, ◌+◌, ◌<◌, String, false, none, some, List, [], ◌∷◌, map, All, leb, ◌==◌, ==_sound,
  string_eq, option_eq, if◌then◌else◌, ◌≡◌, refl, sym, ap, ◌∙◌, subst, arith, Bool-cases, inl, inr,
}
use base_agent.Models.Message.{ToolCall}
use base_agent.Supervision.Decisions.{first_intervention, is_redirect}
use base_agent.Supervision.Policies.{
  RuntimeContext, Printing, budget_before_tool, counted_call, duplicates_before_tool, before_tool,
}

-- How many of the fingerprints, the newest first, are equal to one before another comes.
unfoldable pub leading : String → List String → ℕ
leading f [] = 0
leading f (g ∷ gs) = let more = leading f gs in if g == f then suc more else 0

module _ (p : Printing) where
  -- The context that the runtime hands to the hook, with its number of tool calls.
  abbrev pub at_call : RuntimeContext → ℕ → RuntimeContext
  at_call c n = record c { tool_call_count = n }

  -- The context after the hook has been called for each tool call, the newest first.
  unfoldable pub asked : RuntimeContext → List (ToolCall × ℕ) → RuntimeContext
  asked c [] = c
  asked c ((call, n) ∷ older) = (before_tool p call (at_call (asked c older) n)).0

  abbrev pub fingerprints : List (ToolCall × ℕ) → List String
  fingerprints = map (λ h. p.fingerprint h.0)

  within_budget :
      (call : ToolCall) (c : RuntimeContext)
      → leb c.profile.max_tool_calls c.tool_call_count ≡ false
      → (is_redirect (before_tool p call c).1.action
          ≡ leb c.profile.duplicate_tool_call_threshold (counted_call p call c).repeat_count)
        × ((before_tool p call c).0 ≡ counted_call p call c)
  unfolding before_tool first_intervention budget_before_tool duplicates_before_tool
  within_budget call c within =
      elim (Bool-cases
        (leb c.profile.duplicate_tool_call_threshold (counted_call p call c).repeat_count)) [
          | inl many ↦ rw (within, many) (refl, refl)
          | inr few ↦ rw (within, few) (refl, refl)
        ]

  -- What the detector has stored after a history.
  record Stored (c : RuntimeContext) (limit threshold : ℕ) (h : List (ToolCall × ℕ)) : Type 0 where
    limited : c.profile.max_tool_calls ≡ limit
    thresholded : c.profile.duplicate_tool_call_threshold ≡ threshold
    counted :
        (f : String)
        → (if c.last_fingerprint == some f then c.repeat_count + 1 else 1)
          ≡ suc (leading f (fingerprints h))

  counted-Stored :
      (c : RuntimeContext) (limit threshold : ℕ) (h : List (ToolCall × ℕ)) (call : ToolCall) (n : ℕ)
      → Stored c limit threshold h
      → Stored (counted_call p call (at_call c n)) limit threshold ((call, n) ∷ h)
  unfolding leading
  counted-Stored c limit threshold h call n s = record {
    limited = s.limited;
    thresholded = s.thresholded;
    counted = λ f. elim (Bool-cases (p.fingerprint call == f)) [
      | inl same ↦ rw same (
          ap (λ k. k + 1) (s.counted (p.fingerprint call))
          ∙ (omega arith
              ∙ ap (λ k. suc (suc (leading k (fingerprints h))))
                  (==_sound (p.fingerprint call) f same)))
      | inr other ↦ rw other refl
    ];
  }

  asked-Stored :
      (c : RuntimeContext) (h : List (ToolCall × ℕ))
      → c.last_fingerprint ≡ none
      → All (λ k. k.1 < c.profile.max_tool_calls) h
      → Stored (asked c h) c.profile.max_tool_calls c.profile.duplicate_tool_call_threshold h
  unfolding asked leading
  asked-Stored c [] fresh within = record {
    limited = refl;
    thresholded = refl;
    counted = λ f. ap (λ o. if o == some f then c.repeat_count + 1 else 1) fresh;
  }
  asked-Stored c ((call, n) ∷ older) fresh within =
      let before = asked-Stored c older fresh within.1 in
      let kept =
        within_budget call (at_call (asked c older) n) (limit_kept c older n before within.0) in
      subst
        (λ k.
          Stored k c.profile.max_tool_calls c.profile.duplicate_tool_call_threshold
            ((call, n) ∷ older))
        (sym kept.1) (counted-Stored (asked c older) _ _ older call n before)
    where
      limit_kept :
          (c : RuntimeContext) (older : List (ToolCall × ℕ)) (n : ℕ)
          → Stored
              (asked c older)
              c.profile.max_tool_calls
              c.profile.duplicate_tool_call_threshold
              older
          → n < c.profile.max_tool_calls
          → leb (asked c older).profile.max_tool_calls n ≡ false
      limit_kept c older n s small = rw s.limited (ground arith)

  -- While the Run is within its budget of tool calls, the default supervisor redirects a tool call exactly
  -- if this call, with the calls right before it that have the same fingerprint, makes at least the
  -- profile's threshold for duplicate calls, whatever calls came earlier in the Run.
  pub before_tool-redirects :
      (c : RuntimeContext) (older : List (ToolCall × ℕ)) (call : ToolCall) (n : ℕ)
      → c.last_fingerprint ≡ none
      → All (λ k. k.1 < c.profile.max_tool_calls) ((call, n) ∷ older)
      → is_redirect (before_tool p call (at_call (asked c older) n)).1.action
        ≡ leb c.profile.duplicate_tool_call_threshold
            (suc (leading (p.fingerprint call) (fingerprints older)))
  before_tool-redirects c older call n fresh within =
      let s = asked-Stored c older fresh within.1 in
      let kept = within_budget call (at_call (asked c older) n) (rw s.limited (ground arith)) in
      kept.0
      ∙ (ap (λ k. leb k (counted_call p call (at_call (asked c older) n)).repeat_count)
            s.thresholded
          ∙ ap (leb c.profile.duplicate_tool_call_threshold) (s.counted (p.fingerprint call)))
