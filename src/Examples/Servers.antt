-- ===== src/Examples/Servers.antt =====
-- The server of apps/poc/server.mjs and the file view of apps/poc/filesystem.mjs on concrete states.
use agentmeld.Prelude.{true, false, none, some, List, [], ◌∷◌, ◌≡◌, refl, Bool, String}
use agentmeld.Data.{State, Task, Status, Entry}
use agentmeld.Server.{
  Server, pump, serve, Entered, stop_posted, stop_stored, turn_settled, turn_stored,
}
use agentmeld.Server.Waiting.{serve-waits}
use agentmeld.Server.Posted.{waits}
use agentmeld.Files.{
  workspace_file, workspace_view, lists, present, is_file, workspace_file-workspace_view,
}
use agentmeld.Examples.Turns.{task, chat}

abbrev first : Task
first = record task { status = Status.queued }

abbrev second : Task
second = record task { id = "t2"; status = Status.queued }

abbrev server : Server
server = record {
  state = record { tasks = first ∷ second ∷ []; conversations = chat ∷ [] };
  active = none;
  closing = false;
  healthy = true;
  pending = 0;
  stopping = [];
  cancels = 0;
  sent = [];
}

-- The first turn is stopped while it runs, and ends; the second one starts then, and is not stopped.
abbrev script : List Entered
script =
    stop_posted 3 "t1" true
    ∷ stop_stored true
    ∷ turn_settled 4 (λ t. record t { status = Status.cancelled }) false
    ∷ turn_stored 5 true
    ∷ []

serve-waits_example : waits (serve script (pump 2 server)) ≡ false
serve-waits_example = serve-waits 2 script server

second_starts : (serve script (pump 2 server)).active ≡ some "t2"
unfolding serve pump
second_starts = refl

responses : (serve script (pump 2 server)).sent ≡ 202 ∷ []
unfolding serve pump
responses = refl

abbrev entry : String → Bool → Entry
entry name directory = record { name = name; directory = directory; content = b'x' ∷ [] }

-- A directory, a file in it, and a file with a path that is not valid.
abbrev saved_work : State
saved_work = record {
  tasks = [];
  conversations =
      record chat {
        workspace = entry "src" true ∷ entry "src/a.txt" false ∷ entry "src/../b.txt" false ∷ [];
      }
      ∷ [];
}

workspace_file-workspace_view_example :
    (present (workspace_file saved_work "c1" "src/../b.txt")
      ≡ lists "src/../b.txt" (workspace_view saved_work "c1"))
    × ((f : Entry)
        → workspace_file saved_work "c1" "src/../b.txt" ≡ some f
        → is_file "src/../b.txt" f ≡ true)
workspace_file-workspace_view_example = workspace_file-workspace_view saved_work "c1" "src/../b.txt"

found : present (workspace_file saved_work "c1" "src/a.txt") ≡ true
unfolding workspace_file present
found = refl

not_found : present (workspace_file saved_work "c1" "src/../b.txt") ≡ false
unfolding workspace_file present
not_found = refl

not_a_file : present (workspace_file saved_work "c1" "src") ≡ false
unfolding workspace_file present
not_a_file = refl
