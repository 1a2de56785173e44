-- ===== src/Examples/Stores.antt =====
-- The in-memory stores at concrete inputs.
use base_agent.Base.{
  ℕ, ◌≤◌, String, true, false, none, some, List, [], ◌∷◌, ◌++◌, drop, length, ok, ◌≡◌, refl, nat_eq,
  string_eq, option_eq,
}
use base_agent.Base.Dict.{lookup, insert, remove}
use base_agent.Base.Distinct.{contains}
use base_agent.Base.Text.{is_blank, is_empty_text, text_length}
use base_agent.Models.Json.{Fields}
use base_agent.Models.Event.{EventType, RuntimeEvent}
use base_agent.Models.Status.{RunStatus}
use base_agent.Models.Usage.{no_usage}
use base_agent.Models.Run.{Run}
use base_agent.Models.Artifact.{Artifact}
use base_agent.Stores.Conversations.{
  Conversation, ConversationTurn, ConversationStore, create_conversation, get_conversation,
  begin_turn, finish_turn, messages, messages_of, new_turn, turns_of,
}
use base_agent.Stores.Turns.{IsOrdered, run_ids}
use base_agent.Stores.Conversing.{Held, new, creates, begins, Held-IsOrdered}
use base_agent.Stores.Rounds.{added_messages, begin_turn-finish_turn}
use base_agent.Stores.Runs.{
  request_cancel, is_cancel_requested, perform_all, Call, request_cancel-is_cancel_requested,
}
use base_agent.Stores.Checkpoints.{
  RuntimeCheckpoint, Traced, saves, claims, claim, save, claimed_at_most_saved,
}
use base_agent.Stores.Events.{Subscriber, subscriber, poll, yield_batch}
use base_agent.Stores.Subscriptions.{Watched, starts, polls, IsFaithful}
use base_agent.Stores.Streams.{subscribe-IsFaithful, poll-drop}
use base_agent.Stores.Artifacts.{
  Content, ArtifactStore, create_artifact, get_artifact, read, Kept, get_artifact-read,
}

abbrev talk : Conversation
talk = record {
  id = 4;
  profile_id = "p";
  version = 0;
  active_run_id = none;
  created_at = 100;
  updated_at = 100;
  metadata = Fields.end;
}

abbrev talking : ConversationStore
talking = record { conversations = (4, talk) ∷ []; turns = [] }

abbrev asked : ConversationStore
asked = record {
  conversations = (4, record talk { version = 1; active_run_id = some 9; updated_at = 112 }) ∷ [];
  turns = (4, new_turn talk 4 9 "why" 110 111 ∷ []) ∷ [];
}

creates_talk : create_conversation (record { conversations = []; turns = [] }) talk ≡ ok talking
unfolding create_conversation lookup insert
creates_talk = refl

begins_turn :
    begin_turn talking 4 9 "p" "why" 110 111 112 ≡ ok (asked, new_turn talk 4 9 "why" 110 111, [])
unfolding begin_turn get_conversation lookup insert is_blank messages_of
begins_turn = refl

unused_run : contains 9 (run_ids (turns_of talking 4)) ≡ false
unfolding contains lookup
unused_run = refl

held : Held talking
held = creates talk new refl refl creates_talk

stores_talk :
    lookup 4 asked.conversations
    ≡ some (record talk { version = 1; active_run_id = some 9; updated_at = 112 })
unfolding lookup
stores_talk = refl

Held-IsOrdered_example :
    IsOrdered 4
      (record talk { version = 1; active_run_id = some 9; updated_at = 112 })
      (turns_of asked 4)
Held-IsOrdered_example =
    Held-IsOrdered asked 4 (record talk { version = 1; active_run_id = some 9; updated_at = 112 })
      (begins 4 9 "p" "why" 110 111 112 (new_turn talk 4 9 "why" 110 111) [] held unused_run
        begins_turn)
      stores_talk

begin_turn-finish_turn_example :
    (last : ConversationStore) × (finished : ConversationTurn) × (finish_turn asked 4 9
        RunStatus.completed
        (some "because")
        120
        121
      ≡ ok (last, finished))
    × (messages last 4 ≡ ok ([] ++ added_messages RunStatus.completed "why" (some "because")))
begin_turn-finish_turn_example =
    begin_turn-finish_turn talking 4 9 "p" "why" 110 111 112 asked (new_turn talk 4 9 "why" 110 111)
      [] RunStatus.completed (some "because") 120 121 held unused_run begins_turn refl

abbrev job : Run
job = record {
  id = 9;
  profile_id = "p";
  conversation_id = none;
  turn_sequence = none;
  status = RunStatus.running;
  step_count = 0;
  tool_call_count = 0;
  usage = no_usage;
  skills = [];
  output = none;
  error = none;
  cancel_requested = false;
  created_at = 100;
  updated_at = 100;
  metadata = Fields.end;
  attachments = [];
  artifacts = [];
}

abbrev stopping : Run
stopping = record job { cancel_requested = true; updated_at = 130 }

requests : request_cancel ((9, job) ∷ []) 9 130 ≡ ok ((9, stopping) ∷ [], stopping)
unfolding request_cancel lookup insert
requests = refl

-- The snapshot that is saved was read before the request.
request_cancel-is_cancel_requested_example :
    is_cancel_requested (perform_all ((9, stopping) ∷ []) (Call.saves job ∷ [])) 9 ≡ ok true
request_cancel-is_cancel_requested_example =
    request_cancel-is_cancel_requested ((9, job) ∷ []) 9 130 ((9, stopping) ∷ []) stopping
      (Call.saves job ∷ []) requests

abbrev snapshot : RuntimeCheckpoint String
snapshot = record { run_id = 9; snapshot = "messages" }

claims_snapshot : claim ((9, snapshot) ∷ []) 9 ≡ ok ([], snapshot)
unfolding claim lookup remove
claims_snapshot = refl

trace : Traced {S = String} 9 [] 1 1
unfolding save insert
trace = claims 9 snapshot (saves snapshot Traced.new) claims_snapshot

claimed_at_most_saved_example : ◌≤◌ 1 1
claimed_at_most_saved_example = claimed_at_most_saved trace

abbrev event : ℕ → EventType → RuntimeEvent
event n type = record {
  id = n;
  run_id = 9;
  sequence = n;
  type = type;
  timestamp = 500;
  data_fields = Fields.end;
}

abbrev log : List RuntimeEvent
log = event 1 EventType.run_created ∷ event 2 EventType.run_started ∷ []

abbrev heard : Subscriber
heard = record { next_sequence = 3; yielded = event 2 EventType.run_started ∷ []; returned = false }

hears : poll log (subscriber 1) ≡ heard
unfolding poll yield_batch
hears = refl

watched : Watched 9 (subscriber 1) log (subscriber 1)
watched = starts log (refl, refl, (refl, refl, tt))

subscribe-IsFaithful_example : IsFaithful 1 log (poll log (subscriber 1))
subscribe-IsFaithful_example =
    subscribe-IsFaithful 9 1 (subscriber 1) log (poll log (subscriber 1)) refl (polls watched)

still_listens : (poll log (subscriber 1)).returned ≡ false
unfolding poll yield_batch
still_listens = refl

poll-drop_example : (poll log (subscriber 1)).yielded ≡ drop 1 log
poll-drop_example = poll-drop 9 1 (subscriber 1) log (subscriber 1) refl watched still_listens

abbrev bytes : Content (List ℕ)
bytes = record { size = length; sha256 = λ b. "digest" }

abbrev picture : Artifact
picture = record {
  id = 3;
  run_id = 9;
  name = "a.png";
  media_type = "image/png";
  size_bytes = 2;
  checksum_sha256 = "digest";
  created_at = 140;
  metadata = Fields.end;
}

abbrev gallery : ArtifactStore (List ℕ)
gallery = record {
  attachments = [];
  artifacts = (3, picture) ∷ [];
  content = (3, 137 ∷ 80 ∷ []) ∷ [];
}

creates_picture :
    create_artifact bytes
      (record { attachments = []; artifacts = []; content = [] })
      9
      "a.png"
      "image/png"
      (137 ∷ 80 ∷ [])
      Fields.end
      3
      140
    ≡ ok (gallery, picture)
unfolding create_artifact insert is_empty_text text_length
creates_picture = refl

keeps : Kept bytes gallery
unfolding lookup
keeps =
    Kept.creates 9 "a.png" "image/png" (137 ∷ 80 ∷ []) Fields.end 3 140 picture Kept.new refl
      creates_picture

gets_picture : get_artifact gallery 3 ≡ ok picture
unfolding get_artifact lookup
gets_picture = refl

get_artifact-read_example :
    (payload : List ℕ) × (read gallery 3 ≡ ok payload)
    × (bytes.size payload ≡ 2)
    × (bytes.sha256 payload ≡ "digest")
get_artifact-read_example = get_artifact-read bytes gallery 3 picture keeps gets_picture
