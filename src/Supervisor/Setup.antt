-- ===== src/Supervisor/Setup.antt =====
-- runTurn of apps/poc/supervisor.mjs before the spawn: the test of the stored session, the manifest of the
-- inputs and the bytes kept for it.
pub mod Served
use agentmeld.Prelude.{
  ℕ, String, Bool, true, false, not, ◌&&◌, List, [], ◌∷◌, ◌++◌, ◌⊎◌, inl, inr, Option, none, some,
  length, if◌then◌else◌, ◌==◌, string_eq,
}
use agentmeld.Prelude.Dict.{Dict, get, put}
use agentmeld.Data.{Task, Conversation, File, Entry}
use agentmeld.Supervisor.{Supervisor, Turn, Binding, pending}
use agentmeld.Supervisor.Apply.{Session, normalize_session}

-- A row of inputs_manifest.
pub record InputRow : Type 0 where
  pub name : String
  pub digest : String
  pub size : ℕ
  pub attachment : Bool

-- The manifest and the blobs, by digest.
pub record Inputs : Type 0 where
  pub rows : List InputRow
  pub blobs : Dict String (List ℕ)

-- A field of a session against one of the binding: an absent one differs.
abbrev pub same_field : Option String → String → Bool
same_field none value = false
same_field (some own) value = own == value

-- assert.equal for each key of the binding
unfoldable pub same_session : Binding → Option Session → Bool
same_session b none = true
same_session b (some s) =
    same_field s.image_digest b.image_digest
    && same_field s.store_instance b.store_instance
    && same_field s.model b.model
    && same_field s.policy_digest b.policy_digest

-- One file: its row, and its bytes if no file before has its digest.
unfoldable pub add_file : (List ℕ → String) → Bool → String → List ℕ → Inputs → Inputs
unfolding get put
add_file sha256 attachment name bytes i = record {
  rows =
      i.rows
      ++ record { name = name; digest = sha256 bytes; size = length bytes; attachment = attachment }
        ∷ [];
  blobs = elim (get (sha256 bytes) i.blobs) [
    | none ↦ put (sha256 bytes) bytes i.blobs
    | some kept ↦ i.blobs
  ];
}

unfoldable pub add_workspace : (List ℕ → String) → List Entry → Inputs → Inputs
unfolding add_file
add_workspace sha256 [] i = i
add_workspace sha256 (f ∷ fs) i =
    let next = if f.directory then i else add_file sha256 false f.name f.content i in
    add_workspace sha256 fs next

unfoldable pub add_attachments : (List ℕ → String) → List File → Inputs → Inputs
unfolding add_file
add_attachments sha256 [] i = i
add_attachments sha256 (f ∷ fs) i =
    add_attachments sha256 fs (add_file sha256 true f.name f.content i)

unfoldable pub inputs_of : (List ℕ → String) → Conversation → Task → Inputs
unfolding add_workspace add_attachments
inputs_of sha256 c t =
    add_attachments sha256 t.inputs
      (add_workspace sha256 c.workspace (record { rows = []; blobs = [] }))

-- `cur`, before a worker has connected.
unfoldable pub new_turn : Binding → Inputs → Conversation → Task → Turn
new_turn b i c t = record {
  run_id = t.id;
  generation = 1;
  task = t;
  conversation = c;
  blobs = i.blobs;
  expected_binding = b;
  applied_event_ids = [];
  event_seq_by_id = [];
  event_seq = 0;
  saw_terminal = false;
  turn_done = false;
  turn_started = false;
  promise = pending;
  sent = [];
}

-- The tests of runTurn, in order, and the turn that it makes.
unfoldable pub set_up_turn :
    (List ℕ → String) → Binding → Conversation → Task → Supervisor → String ⊎ Turn
unfolding same_session normalize_session inputs_of new_turn
set_up_turn sha256 b c t s = elim s.current [
  | some other ↦ inl "supervisor already has an active turn"
  | none ↦
      if same_session b (normalize_session c.session)
      then inr (new_turn b (inputs_of sha256 c t) c t)
      else inl "Continuation configuration changed"
]
