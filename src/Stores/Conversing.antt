-- ===== src/Stores/Conversing.antt =====
-- Histories of InMemoryConversationStore, stores/in_memory.py.
use base_agent.Base.{
  ℕ, ◌+◌, String, false, ◌||◌, Option, none, some, some_inj, List, [], ◌∷◌, ◌++◌, find, is_some,
  ◌==◌, ==_sound, nat_eq, string_eq, option_eq, Error, ok, ok_inj, >>=-eq-ok, guard, fail_if,
  guard-ok, fail_if-ok, or_fail, or_fail-ok, ◌≡◌, refl, sym, ap, ◌∙◌, subst, arith, Bool-cases,
  Option-cases, inl, inr,
}
use base_agent.Base.Dict.{lookup, insert, lookup-insert, lookup-insert_self}
use base_agent.Base.Distinct.{contains, all_distinct}
use base_agent.Models.Status.{RunStatus, is_created, is_running}
use base_agent.Models.Message.{Message}
use base_agent.Stores.Conversations.{
  Conversation, ConversationTurn, ConversationStore, turns_of, create_conversation,
  get_conversation, messages_of, new_turn, begin_turn, finished_turn, update_first, released,
  finish_turn,
}
use base_agent.Stores.Turns.{IsOrdered, idle, run_ids, begun-IsOrdered, finished-IsOrdered}

-- The stores that calls on a new one reach: conversations are created new, and each turn is begun for a Run that the conversation
-- has not had, which a fresh UUID is. A call that raises changes nothing and is left out.
pub data Held : ConversationStore → Type 0 where
  new : Held (record { conversations = []; turns = [] })
  creates :
      {store next : ConversationStore} (c : Conversation)
      → Held store
      → c.version ≡ 0
      → c.active_run_id ≡ none
      → create_conversation store c ≡ ok next
      → Held next
  begins :
      {store next : ConversationStore} (id run_id : ℕ) (profile_id message : String)
      (created updated now : ℕ) (turn : ConversationTurn) (history : List Message)
      → Held store
      → contains run_id (run_ids (turns_of store id)) ≡ false
      → begin_turn store id run_id profile_id message created updated now ≡ ok (next, turn, history)
      → Held next
  finishes :
      {store next : ConversationStore} (id run_id : ℕ) (status : RunStatus)
      (message : Option String) (now closed : ℕ) (turn : ConversationTurn)
      → Held store
      → finish_turn store id run_id status message now closed ≡ ok (next, turn)
      → Held next

pub record AllOrdered (store : ConversationStore) : Type 0 where
  pub ordered :
      (id : ℕ) (c : Conversation)
      → lookup id store.conversations ≡ some c
      → IsOrdered id c (turns_of store id)
  pub absent : (id : ℕ) → lookup id store.conversations ≡ none → turns_of store id ≡ []

-- What `begin_turn` has checked, and what it stores.
pub record Begun (store : ConversationStore) (id run_id : ℕ) (profile_id message : String)
    (created updated now : ℕ) (next : ConversationStore) (turn : ConversationTurn)
    (history : List Message) : Type 0 where
  pub conversation : Conversation
  pub stored : lookup id store.conversations ≡ some conversation
  pub idle_before : conversation.active_run_id ≡ none
  pub is_turn : turn ≡ new_turn conversation id run_id message created updated
  pub is_history : history ≡ messages_of (turns_of store id)
  pub result : next ≡ record {
    conversations =
        insert id
          (record conversation {
            version = conversation.version + 1;
            active_run_id = some run_id;
            updated_at = now;
          })
          store.conversations;
    turns =
        insert id
          (turns_of store id ++ new_turn conversation id run_id message created updated ∷ [])
          store.turns;
  }

pub begin_turn-Begun :
    (store : ConversationStore) (id run_id : ℕ) (profile_id message : String)
    (created updated now : ℕ) (next : ConversationStore) (turn : ConversationTurn)
    (history : List Message)
    → begin_turn store id run_id profile_id message created updated now ≡ ok (next, turn, history)
    → Begun store id run_id profile_id message created updated now next turn history
unfolding begin_turn get_conversation
begin_turn-Begun store id run_id profile_id message created updated now next turn history h =
    elim (Option-cases (lookup id store.conversations)) [
      | inl e ↦ absurd (ground arith)
      | inr (c, e) ↦ record {
        conversation = c;
        stored = e;
        idle_before = ground arith;
        is_turn = ground arith;
        is_history = ground arith;
        result = ground arith;
      }
    ]

-- What `finish_turn` has checked, and what it stores.
pub record Finished (store : ConversationStore) (id run_id : ℕ) (status : RunStatus)
    (message : Option String) (now closed : ℕ) (next : ConversationStore) : Type 0 where
  pub conversation : Conversation
  pub stored : lookup id store.conversations ≡ some conversation
  pub ends : (is_created status || is_running status) ≡ false
  pub active : conversation.active_run_id ≡ some run_id
  pub result : next ≡ record {
    conversations = insert id (released status closed conversation) store.conversations;
    turns =
        insert id
          (update_first run_id (finished_turn status message now) (turns_of store id))
          store.turns;
  }

pub finish_turn-Finished :
    (store : ConversationStore) (id run_id : ℕ) (status : RunStatus) (message : Option String)
    (now closed : ℕ) (next : ConversationStore) (turn : ConversationTurn)
    → finish_turn store id run_id status message now closed ≡ ok (next, turn)
    → Finished store id run_id status message now closed next
unfolding finish_turn get_conversation
finish_turn-Finished store id run_id status message now closed next turn h =
    let (_, accepts, h0) =
      >>=-eq-ok (fail_if (is_created status || is_running status) Error.value_error) _ h in
    let (c, got, h1) =
      >>=-eq-ok (or_fail (lookup id store.conversations) Error.conversation_not_found) _ h0 in
    let (t, found, h2) =
      >>=-eq-ok
        (or_fail (find (λ t. t.run_id == run_id) (turns_of store id))
          Error.conversation_turn_not_found)
        _ h1 in
    let (_, active, h3) =
      >>=-eq-ok (guard (c.active_run_id == some run_id) Error.conversation_busy) _ h2 in
    record {
      conversation = c;
      stored = or_fail-ok (lookup id store.conversations) Error.conversation_not_found got;
      ends = fail_if-ok (is_created status || is_running status) Error.value_error accepts;
      active = ==_sound c.active_run_id (some run_id) (guard-ok _ Error.conversation_busy active);
      result = sym (ap (λ k. k.0) (ok_inj h3));
    }

-- A conversation that is stored with its turns, beside the others.
stored-AllOrdered :
    (store : ConversationStore) (id : ℕ) (c : Conversation) (ts : List ConversationTurn)
    → AllOrdered store
    → IsOrdered id c ts
    → AllOrdered (record {
      conversations = insert id c store.conversations;
      turns = insert id ts store.turns;
    })
stored-AllOrdered store id c ts all o = record {
  ordered = λ j d h. elim (Bool-cases (id == j)) [
    | inl same ↦
        let is_j = ==_sound id j same in
        let this : c ≡ d = some_inj (
          sym (lookup-insert_self id c store.conversations)
          ∙ (ap (λ k. lookup k (insert id c store.conversations)) is_j ∙ h)) in
        rw (lookup-insert id j ts store.turns, same)
          (subst (λ k. IsOrdered k d ts) is_j (subst (λ k. IsOrdered id k ts) this o))
    | inr other ↦
        rw (lookup-insert id j ts store.turns, other)
          (all.ordered j d (sym (lookup-insert id j c store.conversations ∙ rw other refl) ∙ h))
  ];
  absent = λ j h. elim (Bool-cases (id == j)) [
    | inl same ↦ absurd (cc (lookup-insert id j c store.conversations, same, h))
    | inr other ↦
        rw (lookup-insert id j ts store.turns, other)
          (all.absent j (sym (lookup-insert id j c store.conversations ∙ rw other refl) ∙ h))
  ];
}

created-AllOrdered :
    (store next : ConversationStore) (c : Conversation)
    → AllOrdered store
    → c.version ≡ 0
    → c.active_run_id ≡ none
    → create_conversation store c ≡ ok next
    → AllOrdered next
unfolding create_conversation all_distinct
created-AllOrdered store next c all zeroth inactive h =
    let (_, accepts, h1) =
      >>=-eq-ok
        (fail_if (is_some (lookup c.id store.conversations)) Error.conversation_already_exists) _
        h in
    let unknown : lookup c.id store.conversations ≡ none =
      elim (Option-cases (lookup c.id store.conversations)) [
        | inl e ↦ e
        | inr (d, e) ↦
            absurd (cc (fail_if-ok _ Error.conversation_already_exists accepts, ap is_some e))
      ] in
    subst AllOrdered (ok_inj h1) (record {
      ordered = λ j d found. elim (Bool-cases (c.id == j)) [
        | inl same ↦
            let is_j = ==_sound c.id j same in
            let this : c ≡ d = some_inj (
              sym (lookup-insert_self c.id c store.conversations)
              ∙ (ap (λ k. lookup k (insert c.id c store.conversations)) is_j ∙ found)) in
            let none_yet : turns_of store j ≡ [] =
              ap (turns_of store) (sym is_j) ∙ all.absent c.id unknown in
            rw none_yet (record {
              numbered = tt;
              counted = sym (ap (λ k. k.version) (sym this) ∙ zeroth);
              distinct = refl;
              phase = idle (ap (λ k. k.active_run_id) (sym this) ∙ inactive) tt;
            })
        | inr other ↦
            all.ordered j d
              (sym (lookup-insert c.id j c store.conversations ∙ rw other refl) ∙ found)
      ];
      absent = λ j missing. elim (Bool-cases (c.id == j)) [
        | inl same ↦ absurd (cc (lookup-insert c.id j c store.conversations, same, missing))
        | inr other ↦
            all.absent j
              (sym (lookup-insert c.id j c store.conversations ∙ rw other refl) ∙ missing)
      ];
    })

pub Held-AllOrdered : {store : ConversationStore} → Held store → AllOrdered store
unfolding lookup all_distinct
Held-AllOrdered new = record { ordered = λ id c h. absurd (cc); absent = λ id h. refl }
Held-AllOrdered (creates {store} {next} c before zeroth inactive h) =
    created-AllOrdered store next c (Held-AllOrdered before) zeroth inactive h
Held-AllOrdered
      (begins {store} {next} id run_id profile_id message created updated now turn history before
        fresh h) =
    let all = Held-AllOrdered before in
    let b =
      begin_turn-Begun store id run_id profile_id message created updated now next turn history h in
    subst AllOrdered (sym b.result) (
      stored-AllOrdered store id _ _ all (
        begun-IsOrdered id run_id now created updated message b.conversation (turns_of store id)
          (all.ordered id b.conversation b.stored) b.idle_before fresh))
Held-AllOrdered (finishes {store} {next} id run_id status message now closed turn before h) =
    let all = Held-AllOrdered before in
    let f = finish_turn-Finished store id run_id status message now closed next turn h in
    subst AllOrdered (sym f.result) (
      stored-AllOrdered store id _ _ all (
        finished-IsOrdered id run_id now closed status message f.conversation (turns_of store id)
          (all.ordered id f.conversation f.stored) f.active f.ends))

-- In a store that began empty, where every conversation was created with version 0 and no active Run and
-- every turn begun for a Run that its conversation had not had, the turns of a stored conversation are
-- numbered from 1 to its version, and either no Run is active and every turn has ended, or the active
-- Run is that of the last turn, which alone has not ended.
pub Held-IsOrdered :
    (store : ConversationStore) (id : ℕ) (c : Conversation)
    → Held store
    → lookup id store.conversations ≡ some c
    → IsOrdered id c (turns_of store id)
Held-IsOrdered store id c held h = (Held-AllOrdered held).ordered id c h
