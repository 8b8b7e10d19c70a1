-- ===== src/Tests/Apis.antt =====
-- The knowledge base of a project with a file of API calls and a page.
use gpt_pilot.Prelude.{
  String, ◌≡◌, refl, false, ◌&&◌, Option, none, some, List, [], ◌∷◌, any, find?, update_first,
  contains, select, string_eq, if◌then◌else◌, nat_eq,
}
use gpt_pilot.Prelude.Strings.{
  is_in, splitlines, split_from, strip, after_first, is_space, lines_from, lstrip, rstrip,
  rstrip_char,
}
use gpt_pilot.Result.{ok, raise, key_error}
use gpt_pilot.Records.{File, Step, Location, Api}
use gpt_pilot.ProjectState.{ProjectState}
use gpt_pilot.Agents.{AgentClass}
use gpt_pilot.StateManager.Knowledge.{
  ImplementedFile, get_apis, get_input_required, get_implemented_pages, update_apis,
  update_implemented_pages_and_apis, apis_or_none, is_page, parts, same_texts, apis_of_files,
  is_api_file, apis_of_lines, scan_metadata, read_metadata, new_api, known_backend, mark_files,
  mark_endpoints, line_of, mark_api,
}
use gpt_pilot.StateManager.Knowledge.Marking.{
  IsMarked, update_apis-IsMarked, update_implemented_pages_and_apis-update_apis,
}
use gpt_pilot.StateManager.Knowledge.Inputs.{asks_at, get_input_required_lem}
use gpt_pilot.Orchestrator.Knowledge.{update_knowledge_base, concerns_knowledge_base}
use gpt_pilot.Orchestrator.Knowledge.Implemented.{agents_for, implements, update_knowledge_base_lem}
use gpt_pilot.Tests.Fixtures.{working, content_of_text}

abbrev api_file : File
api_file = record {
  path = "client/src/api/users.ts";
  content =
      content_of_text
        "// Description: List users\n  // Response: { }\n// Endpoint: GET /api/users\n// Description: None\n";
  meta = [];
}

abbrev page : File
page = record { path = "client/src/pages/Home.tsx"; content = content_of_text ""; meta = [] }

abbrev site : ProjectState
site = record working { files = api_file ∷ page ∷ [] }

abbrev listed : Option Location → String → Api
listed backend status = record {
  description = "List users";
  endpoint = "GET /api/users";
  request = "";
  response = "{ }";
  frontend = record { path = "client/src/api/users.ts"; line = 1 };
  backend = backend;
  status = status;
}

one_api : get_apis site site ≡ listed none "mocked" ∷ []
unfolding get_apis apis_of_files is_api_file same_texts parts select split_from nat_eq string_eq
    apis_of_lines splitlines strip scan_metadata read_metadata after_first new_api known_backend
    find? is_space lines_from lstrip rstrip
one_api = refl

one_page : get_implemented_pages site ≡ "client/src/pages/Home.tsx" ∷ []
unfolding get_implemented_pages select is_page same_texts parts split_from nat_eq string_eq
one_page = refl

abbrev done_in_server : List ImplementedFile
done_in_server =
    record {
      path = "server/routes.js";
      endpoints = record { endpoint = "GET /api/users/"; line = some 7; lines = none } ∷ [];
    }
    ∷ []

marked :
    (next : ProjectState) × (update_apis site site done_in_server ≡ ok next)
    × (apis_or_none next.knowledge_base.apis
        ≡ listed (some (record { path = "server/routes.js"; line = 7 })) "implemented" ∷ [])
unfolding update_apis mark_files mark_endpoints line_of mark_api update_first rstrip_char get_apis
    apis_of_files is_api_file same_texts parts select split_from nat_eq string_eq apis_of_lines
    splitlines strip scan_metadata read_metadata after_first new_api known_backend find? is_space
    lines_from lstrip rstrip
marked = (_, refl, refl)

update_apis-IsMarked_example : IsMarked (apis_or_none marked.0.knowledge_base.apis)
update_apis-IsMarked_example = update_apis-IsMarked site site marked.0 done_in_server marked.1

update_implemented_pages_and_apis-update_apis_example :
    update_implemented_pages_and_apis site marked.0 ≡ update_implemented_pages_and_apis site site
update_implemented_pages_and_apis-update_apis_example =
    update_implemented_pages_and_apis-update_apis site site marked.0 done_in_server marked.1

get_input_required_lem_run :
    (contains (get_input_required "A=1\nB=INPUT_REQUIRED\n" ".env") 0 ≡ false)
    × (contains (get_input_required "A=1\nB=INPUT_REQUIRED\n" ".env") 2
        ≡ (is_in ".env" ".env" && asks_at 1 (splitlines "A=1\nB=INPUT_REQUIRED\n")))
get_input_required_lem_run = get_input_required_lem "A=1\nB=INPUT_REQUIRED\n" ".env" 1

abbrev server_step : Step
server_step = record {
  type = some "save_file";
  completed = false;
  iteration_index = none;
  source = none;
  save_path = some "server/routes.js";
  related_api_endpoints = "/api/users" ∷ [];
}

update_knowledge_base_lem_example :
    update_knowledge_base (agents_for AgentClass.code_monkey (server_step ∷ [])) site site ≡ (
      if any implements (server_step ∷ [])
      then raise (key_error "line")
      else if any concerns_knowledge_base (server_step ∷ [])
      then ok (update_implemented_pages_and_apis site site)
      else ok site)
update_knowledge_base_lem_example =
    update_knowledge_base_lem AgentClass.code_monkey site site (server_step ∷ [])
