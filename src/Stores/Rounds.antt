-- ===== src/Stores/Rounds.antt =====
-- One turn of a conversation, stores/in_memory.py, from its begin to its end.
use base_agent.Base.{
  ℕ, String, false, ◌||◌, Option, none, some, List, [], ◌∷◌, ◌++◌, find, ◌==◌, ==_refl, nat_eq,
  string_eq, option_eq, ok, if◌then◌else◌, ◌≡◌, refl, sym, ap, ◌∙◌, Bool-cases, inl, inr,
}
use base_agent.Base.Dict.{Dict, lookup, insert, lookup-insert_self}
use base_agent.Base.Distinct.{contains}
use base_agent.Models.Status.{RunStatus, is_created, is_running, is_completed}
use base_agent.Models.Message.{Message, user_message_of, assistant_message_of}
use base_agent.Stores.Conversations.{
  Conversation, ConversationTurn, ConversationStore, turns_of, get_conversation, messages_of,
  new_turn, begin_turn, finished_turn, update_first, released, finish_turn, messages, or_empty,
  or_empty_text,
}
use base_agent.Stores.Turns.{run_ids, begun-IsOrdered, update_first-last}
use base_agent.Stores.Conversing.{Held, Held-AllOrdered, begin_turn-Begun}

messages_of-append :
    (ts us : List ConversationTurn) → messages_of (ts ++ us) ≡ messages_of ts ++ messages_of us
unfolding messages_of
messages_of-append [] us = refl
messages_of-append (t ∷ ts) us = elim (Bool-cases (is_completed t.status)) [
  | inl done ↦ rw done (
      ap
        (λ k.
          user_message_of t.user_message
          ∷ assistant_message_of (or_empty_text t.assistant_message)
          ∷ k)
        (messages_of-append ts us))
  | inr other ↦ rw other (messages_of-append ts us)
]

find_last :
    (run_id : ℕ) (ts : List ConversationTurn) (t : ConversationTurn)
    → t.run_id ≡ run_id
    → (u : ConversationTurn) × (find (λ k. k.run_id == run_id) (ts ++ t ∷ []) ≡ some u)
find_last run_id [] t e = (t, rw (e, ==_refl run_id) refl)
find_last run_id (s ∷ ts) t e = elim (Bool-cases (s.run_id == run_id)) [
  | inl same ↦ (s, rw same refl)
  | inr other ↦ let (u, found) = find_last run_id ts t e in (u, rw other found)
]

-- What a finished turn adds to the messages.
abbrev pub added_messages : RunStatus → String → Option String → List Message
added_messages status message answer =
    if is_completed status
    then user_message_of message ∷ assistant_message_of (or_empty_text answer) ∷ []
    else []

messages_of-finished :
    (c : Conversation) (id run_id created updated now : ℕ) (message : String) (status : RunStatus)
    (answer : Option String)
    → messages_of
        (finished_turn status answer now (new_turn c id run_id message created updated) ∷ [])
      ≡ added_messages status message answer
unfolding messages_of
messages_of-finished c id run_id created updated now message status none =
    elim (Bool-cases (is_completed status)) [ inl e ↦ rw e refl | inr e ↦ rw e refl ]
messages_of-finished c id run_id created updated now message status (some answer) =
    elim (Bool-cases (is_completed status)) [ inl e ↦ rw e refl | inr e ↦ rw e refl ]

finish_turn_returns :
    (store : ConversationStore) (id run_id : ℕ) (status : RunStatus) (answer : Option String)
    (at closed : ℕ) (c : Conversation) (u : ConversationTurn)
    → lookup id store.conversations ≡ some c
    → (is_created status || is_running status) ≡ false
    → find (λ t. t.run_id == run_id) (turns_of store id) ≡ some u
    → c.active_run_id ≡ some run_id
    → finish_turn store id run_id status answer at closed
      ≡ ok (
        record {
          conversations = insert id (released status closed c) store.conversations;
          turns =
              insert id
                (update_first run_id (finished_turn status answer at) (turns_of store id))
                store.turns;
        },
        finished_turn status answer at u,
      )
unfolding finish_turn get_conversation
finish_turn_returns store id run_id status answer at closed c u stored ends found active =
    rw (ends, stored, found, active, ==_refl (some run_id)) refl

stored_messages :
    (conversations : Dict ℕ Conversation) (turns : Dict ℕ (List ConversationTurn)) (id : ℕ)
    (c : Conversation) (ts : List ConversationTurn)
    → messages (record { conversations = insert id c conversations; turns = insert id ts turns }) id
      ≡ ok (messages_of ts)
unfolding messages get_conversation
stored_messages conversations turns id c ts =
    rw (lookup-insert_self id c conversations, lookup-insert_self id ts turns) refl

-- A turn that `begin_turn` has begun, for a Run that the conversation has not had, can be finished with
-- any status but CREATED and RUNNING, and then the messages are the history that `begin_turn` returned,
-- followed by the user's message and the answer if the status is COMPLETED and by nothing if not.
pub begin_turn-finish_turn :
    (store : ConversationStore) (id run_id : ℕ) (profile_id message : String)
    (created updated now : ℕ) (next : ConversationStore) (turn : ConversationTurn)
    (history : List Message) (status : RunStatus) (answer : Option String) (at closed : ℕ)
    → Held store
    → contains run_id (run_ids (turns_of store id)) ≡ false
    → begin_turn store id run_id profile_id message created updated now ≡ ok (next, turn, history)
    → (is_created status || is_running status) ≡ false
    → (last : ConversationStore) × (finished : ConversationTurn) × (finish_turn next id run_id
          status answer at closed
        ≡ ok (last, finished))
      × (messages last id ≡ ok (history ++ added_messages status message answer))
begin_turn-finish_turn store id run_id profile_id message created updated now next turn history
      status answer at closed held fresh h ends =
    let b =
      begin_turn-Begun store id run_id profile_id message created updated now next turn history h in
    let c = b.conversation in
    let t = new_turn c id run_id message created updated in
    let ts = turns_of store id in
    let o =
      begun-IsOrdered id run_id now created updated message c ts
        ((Held-AllOrdered held).ordered id c b.stored) b.idle_before fresh in
    let (u, found) = find_last run_id ts t refl in
    let listed : turns_of next id ≡ ts ++ t ∷ [] =
      ap (λ k. turns_of k id) b.result
      ∙ ap or_empty (lookup-insert_self id (ts ++ t ∷ []) store.turns) in
    let stored =
      ap (λ k. lookup id k.conversations) b.result ∙ lookup-insert_self id _ store.conversations in
    let updates =
      ap (update_first run_id (finished_turn status answer at)) listed
      ∙ update_first-last (finished_turn status answer at) ts t o.distinct in
    (
      _,
      _,
      finish_turn_returns next id run_id status answer at closed _ u stored ends
          (ap (find (λ k. k.run_id == run_id)) listed ∙ found) refl,
      stored_messages next.conversations next.turns id _ _
          ∙ ap ok (
              ap messages_of updates
              ∙ (messages_of-append ts (finished_turn status answer at t ∷ [])
                  ∙ (ap (λ k. k ++ messages_of (finished_turn status answer at t ∷ []))
                        (sym b.is_history)
                      ∙ ap (λ k. history ++ k)
                          (messages_of-finished c id run_id created updated at message status
                            answer)))),
    )
