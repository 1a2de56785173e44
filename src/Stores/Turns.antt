-- ===== src/Stores/Turns.antt =====
-- Histories of InMemoryConversationStore, stores/in_memory.py.
use base_agent.Base.{
  ℕ, suc, ◌+◌, String, true, false, ◌||◌, Option, none, some, some_inj, List, [], ◌∷◌, ◌++◌, map,
  map-append, length, length-append, All, All-append, ◌==◌, ==_refl, nat_eq, string_eq, option_eq,
  ◌≡◌, refl, sym, ap, ◌∙◌, subst, arith, Bool-cases, inl, inr,
}
use base_agent.Base.Distinct.{contains, all_distinct, all_distinct-snoc}
use base_agent.Models.Status.{RunStatus, is_created, is_running, is_waiting, is_terminal}
use base_agent.Stores.Conversations.{
  Conversation, ConversationTurn, new_turn, finished_turn, update_first, released,
}

-- The turns of a conversation, numbered from a start.
abbrev pub IsNumbered : ℕ → ℕ → List ConversationTurn → Type 0
IsNumbered id start [] = Unit {0}
IsNumbered id start (t ∷ ts) =
    (t.conversation_id ≡ id) × (t.sequence ≡ start) × IsNumbered id (suc start) ts

abbrev pub AllEnded : List ConversationTurn → Type 0
AllEnded = All (λ t. is_terminal t.status ≡ true)

-- Either no Run is active and every turn has ended, or the active Run is that of the last turn, which is
-- the only one that has not ended.
pub data Phase (active : Option ℕ) (ts : List ConversationTurn) : Type 0 where
  idle : active ≡ none → AllEnded ts → Phase active ts
  busy :
      (before : List ConversationTurn) (last : ConversationTurn)
      → active ≡ some last.run_id
      → ts ≡ before ++ last ∷ []
      → AllEnded before
      → is_terminal last.status ≡ false
      → Phase active ts

abbrev pub run_ids : List ConversationTurn → List ℕ
run_ids = map (λ t. t.run_id)

pub record IsOrdered (id : ℕ) (c : Conversation) (ts : List ConversationTurn) : Type 0 where
  pub numbered : IsNumbered id 1 ts
  pub counted : length ts ≡ c.version
  pub distinct : all_distinct (run_ids ts) ≡ true
  pub phase : Phase c.active_run_id ts

IsNumbered-snoc :
    (id start : ℕ) (ts : List ConversationTurn) (t : ConversationTurn)
    → IsNumbered id start ts
    → t.conversation_id ≡ id
    → t.sequence ≡ start + length ts
    → IsNumbered id start (ts ++ t ∷ [])
IsNumbered-snoc id start [] t n c s = (c, (omega arith), tt)
IsNumbered-snoc id start (u ∷ ts) t n c s =
    (n.0, n.1, IsNumbered-snoc id (suc start) ts t n.2 c (omega arith))

-- An active conversation leaves no phase but the second, and an idle one none but the first.
ended_when_idle : (ts : List ConversationTurn) → Phase none ts → AllEnded ts
ended_when_idle ts (idle a e) = e
ended_when_idle ts (busy before last a e ended live) = absurd (cc)

pub begun-IsOrdered :
    (id run_id now created updated : ℕ) (message : String) (c : Conversation)
    (ts : List ConversationTurn)
    → IsOrdered id c ts
    → c.active_run_id ≡ none
    → contains run_id (run_ids ts) ≡ false
    → IsOrdered id
        (record c { version = c.version + 1; active_run_id = some run_id; updated_at = now })
        (ts ++ new_turn c id run_id message created updated ∷ [])
begun-IsOrdered id run_id now created updated message c ts o idle_now fresh = record {
  numbered =
      IsNumbered-snoc id 1 ts (new_turn c id run_id message created updated) o.numbered refl
        (omega (arith, o.counted));
  counted =
      omega
        (arith, length-append ts (new_turn c id run_id message created updated ∷ []), o.counted);
  distinct =
      rw
        (map-append (λ (t : ConversationTurn). t.run_id) ts
          (new_turn c id run_id message created updated ∷ []))
        (all_distinct-snoc (run_ids ts) run_id o.distinct fresh);
  phase =
      busy ts (new_turn c id run_id message created updated) refl refl
        (ended_when_idle ts (subst (λ a. Phase a ts) idle_now o.phase)) refl;
}

-- An update that keeps the number, the conversation and the Run of a turn.
update_first-IsNumbered :
    (run_id : ℕ) (status : RunStatus) (message : Option String) (now id start : ℕ)
    (ts : List ConversationTurn)
    → IsNumbered id start ts
    → IsNumbered id start (update_first run_id (finished_turn status message now) ts)
unfolding update_first
update_first-IsNumbered run_id status message now id start [] n = tt
update_first-IsNumbered run_id status message now id start (t ∷ ts) n =
    elim (Bool-cases (t.run_id == run_id)) [
      | inl same ↦ rw same (n.0, n.1, n.2)
      | inr other ↦
          rw other
            (n.0, n.1, update_first-IsNumbered run_id status message now id (suc start) ts n.2)
    ]

update_first-run_ids :
    (run_id : ℕ) (status : RunStatus) (message : Option String) (now : ℕ)
    (ts : List ConversationTurn)
    → run_ids (update_first run_id (finished_turn status message now) ts) ≡ run_ids ts
unfolding update_first
update_first-run_ids run_id status message now [] = refl
update_first-run_ids run_id status message now (t ∷ ts) = elim (Bool-cases (t.run_id == run_id)) [
  | inl same ↦ rw same refl
  | inr other ↦
      rw other (ap (λ k. t.run_id ∷ k) (update_first-run_ids run_id status message now ts))
]

update_first-length :
    (run_id : ℕ) (update : ConversationTurn → ConversationTurn) (ts : List ConversationTurn)
    → length (update_first run_id update ts) ≡ length ts
unfolding update_first
update_first-length run_id update [] = refl
update_first-length run_id update (t ∷ ts) = elim (Bool-cases (t.run_id == run_id)) [
  | inl same ↦ rw same refl
  | inr other ↦ rw other (ap suc (update_first-length run_id update ts))
]

nat_flip : (a b : ℕ) → (a == b) ≡ false → (b == a) ≡ false
nat_flip a b h = ground arith

apart :
    (run_id : ℕ) (before : List ConversationTurn) (last : ConversationTurn)
    → contains run_id (run_ids (before ++ last ∷ [])) ≡ false
    → (last.run_id == run_id) ≡ false
unfolding contains
apart run_id [] last h = ground arith
apart run_id (t ∷ before) last h = apart run_id before last (ground arith)

-- With distinct Runs, the turn that is updated is the last one.
pub update_first-last :
    (update : ConversationTurn → ConversationTurn) (before : List ConversationTurn)
    (last : ConversationTurn)
    → all_distinct (run_ids (before ++ last ∷ [])) ≡ true
    → update_first last.run_id update (before ++ last ∷ []) ≡ before ++ update last ∷ []
unfolding update_first all_distinct
update_first-last update [] last d = rw (==_refl last.run_id) refl
update_first-last update (t ∷ before) last d =
    let other : (t.run_id == last.run_id) ≡ false =
      nat_flip last.run_id t.run_id (apart t.run_id before last (ground arith)) in
    rw other (ap (λ k. t ∷ k) (update_first-last update before last (ground arith)))

-- The statuses with which a turn can finish.
finishing :
    (status : RunStatus)
    → (is_created status || is_running status) ≡ false
    → is_waiting status ≡ false
    → is_terminal status ≡ true
finishing status h w = ground arith

finished_phase :
    (status : RunStatus) (message : Option String) (now closed : ℕ) (c : Conversation)
    (before : List ConversationTurn) (last : ConversationTurn)
    → (is_created status || is_running status) ≡ false
    → c.active_run_id ≡ some last.run_id
    → AllEnded before
    → Phase
        (released status closed c).active_run_id
        (before ++ finished_turn status message now last ∷ [])
finished_phase status message now closed c before last ends active ended =
    elim (Bool-cases (is_waiting status)) [
      | inl waits ↦
          busy before (finished_turn status message now last) (rw waits active) refl ended
            (ground arith)
      | inr over ↦ idle (rw over refl) (
          All-append (λ t. is_terminal t.status ≡ true) before _ ended
            (finishing status ends over, tt))
    ]

-- The last turn is the one of the active Run.
pub active_last :
    (run_id : ℕ) (active : Option ℕ) (ts : List ConversationTurn)
    → active ≡ some run_id
    → Phase active ts
    → (before : List ConversationTurn) × (last : ConversationTurn) × (last.run_id ≡ run_id)
      × (ts ≡ before ++ last ∷ [])
      × AllEnded before
      × (is_terminal last.status ≡ false)
active_last run_id active ts h (idle a e) = absurd (cc)
active_last run_id active ts h (busy before last a e ended live) =
    (before, last, some_inj (sym a ∙ h), e, ended, live)

pub finished-IsOrdered :
    (id run_id now closed : ℕ) (status : RunStatus) (message : Option String) (c : Conversation)
    (ts : List ConversationTurn)
    → IsOrdered id c ts
    → c.active_run_id ≡ some run_id
    → (is_created status || is_running status) ≡ false
    → IsOrdered id
        (released status closed c)
        (update_first run_id (finished_turn status message now) ts)
finished-IsOrdered id run_id now closed status message c ts o active ends = record {
  numbered = update_first-IsNumbered run_id status message now id 1 ts o.numbered;
  counted = update_first-length run_id (finished_turn status message now) ts ∙ (o.counted ∙ kept);
  distinct = rw (update_first-run_ids run_id status message now ts) o.distinct;
  phase =
      let (before, last, named, e, ended, live) =
        active_last run_id c.active_run_id ts active o.phase in
      let d : all_distinct (run_ids (before ++ last ∷ [])) ≡ true =
        ap (λ k. all_distinct (run_ids k)) (sym e) ∙ o.distinct in
      let updates : update_first run_id (finished_turn status message now) ts
          ≡ before ++ finished_turn status message now last ∷ [] =
        ap (λ k. update_first k (finished_turn status message now) ts) (sym named)
        ∙ (ap (update_first last.run_id (finished_turn status message now)) e
            ∙ update_first-last (finished_turn status message now) before last d) in
      subst (Phase (released status closed c).active_run_id) (sym updates) (
        finished_phase status message now closed c before last ends (active ∙ ap some (sym named))
          ended);
}
  where
    kept : c.version ≡ (released status closed c).version
    kept = ground arith
