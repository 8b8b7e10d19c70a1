-- ===== src/Orchestrator/Knowledge.antt =====
-- `_update_knowledge_base` of core/agents/orchestrator.py: what the parallel agents have implemented is
-- noted in the knowledge base of the next state. The cache of the contents that it reads is left out:
-- the files do not change meanwhile.
pub mod Implemented
use gpt_pilot.Prelude.{
  ℕ, suc, String, Bool, true, false, not, ◌||◌, Option, none, some, List, [], ◌∷◌, is_empty, ◌==◌,
  string_eq, if◌then◌else◌,
}
use gpt_pilot.Prelude.Strings.{is_in, splitlines}
use gpt_pilot.Result.{Result, ok, raise, attribute_error, ◌>>=◌}
use gpt_pilot.Records.{File, Step}
use gpt_pilot.ProjectState.{ProjectState, get_file_by_path}
use gpt_pilot.Agents.{Agent}
use gpt_pilot.StateManager.Knowledge.{
  EndpointInfo, ImplementedFile, update_apis, update_implemented_pages_and_apis,
}

-- `a.step.get(...)` where `a.step` is None is an AttributeError.
unfoldable pub step_of : Agent → Result Step
step_of a = elim (a.step) [ none ↦ raise attribute_error | some step ↦ ok step ]

abbrev pub path_or_blank : Option String → String
path_or_blank none = ""
path_or_blank (some path) = path

unfoldable pub concerns_knowledge_base : Step → Bool
concerns_knowledge_base step =
    is_in "src/pages/" (path_or_blank step.save_path)
    || is_in "src/api/" (path_or_blank step.save_path)
    || not (is_empty step.related_api_endpoints)

unfoldable pub should_update : List Agent → Result Bool
should_update [] = ok false
should_update (a ∷ agents) = do
  step ← step_of a
  let rest = should_update agents
  if concerns_knowledge_base step then ok true else rest

unfoldable pub line_nums : String → ℕ → List String → List ℕ
line_nums endpoint i [] = []
line_nums endpoint i (line ∷ lines) =
    let rest = line_nums endpoint (suc i) lines in if is_in endpoint line then i ∷ rest else rest

abbrev pub text_of : Option File → String
text_of none = ""
text_of (some file) = file.content.content

unfoldable pub endpoint_infos : String → List String → List EndpointInfo
endpoint_infos content [] = []
endpoint_infos content (endpoint ∷ endpoints) =
    record {
      endpoint = endpoint;
      line = none;
      lines = some (line_nums endpoint 1 (splitlines content));
    }
    ∷ endpoint_infos content endpoints

-- `not endpoints or not path`
unfoldable pub implements_nothing : Step → Bool
implements_nothing step = is_empty step.related_api_endpoints || path_or_blank step.save_path == ""

unfoldable pub implemented_file : ProjectState → Step → ImplementedFile
implemented_file current step =
    let path = path_or_blank step.save_path in
    record {
      path = path;
      endpoints =
          endpoint_infos (text_of (get_file_by_path current path)) step.related_api_endpoints;
    }

unfoldable pub files_with_implemented_apis :
    ProjectState → List Agent → Result (List ImplementedFile)
files_with_implemented_apis current [] = ok []
files_with_implemented_apis current (a ∷ agents) = do
  step ← step_of a
  rest ← files_with_implemented_apis current agents
  ok (if implements_nothing step then rest else implemented_file current step ∷ rest)

-- The current and the next state, and the next state that is left.
unfoldable pub update_knowledge_base :
    List Agent → ProjectState → ProjectState → Result ProjectState
update_knowledge_base agents current next = should_update agents >>= λ should.
    let updated = (do
      files ← files_with_implemented_apis current agents
      next' ← update_apis current next files
      ok (update_implemented_pages_and_apis current next')) in
    if should then updated else ok next
