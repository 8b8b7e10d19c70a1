-- ===== src/StateManager/Knowledge.antt =====
-- The knowledge base in core/state/state_manager.py: `get_implemented_pages`, `get_apis`,
-- `update_apis`, `update_implemented_pages_and_apis`, `update_utility_functions` and
-- `get_input_required`. What the user interface is told of is not modelled.
pub mod Marking
pub mod Utilities
pub mod Inputs
use Prim.Native.Char.{code}
use Prim.Native.String
use text.Mathlib.Text.{starts_with}
use gpt_pilot.Prelude.{
  ℕ, suc, String, Bool, true, false, not, ◌&&◌, ◌||◌, Option, none, some, List, [], ◌∷◌, ◌++◌, ◌==◌,
  string_eq, take, is_empty, select, any, find?, update_first, if◌then◌else◌,
}
use gpt_pilot.Prelude.Dict.{is_some}
use gpt_pilot.Prelude.Strings.{strip, splitlines, is_in, after_first, rstrip_char, split_from}
use gpt_pilot.Result.{Result, ok, raise, key_error, ◌>>=◌}
use gpt_pilot.Records.{File, Location, Api, UtilityFunction, KnowledgeBase}
use gpt_pilot.ProjectState.{ProjectState}

-- `Path(path).parts`
unfoldable pub parts : String → List String
parts path =
    let pieces = select (λ s. not (s == "" || s == ".")) (split_from b'/' "" path) in
    if starts_with path "/" then "/" ∷ pieces else pieces

unfoldable pub same_texts : List String → List String → Bool
same_texts [] [] = true
same_texts (s ∷ ss) (t ∷ ts) = s == t && same_texts ss ts
same_texts _ _ = false

unfoldable pub is_page : File → Bool
is_page f = same_texts (take 3 (parts f.path)) ("client" ∷ "src" ∷ "pages" ∷ [])

abbrev pub page_paths : List File → List String
page_paths [] = []
page_paths (f ∷ files) = f.path ∷ page_paths files

unfoldable pub get_implemented_pages : ProjectState → List String
get_implemented_pages next = page_paths (select is_page next.files)

-- `data` of one API definition.
pub record Metadata : Type 0 where
  pub endpoint : String
  pub request : String
  pub response : String

-- `next_line.split(":", 1)[1].strip()`
abbrev pub value_of : String → String
value_of line = strip (after_first b':' line)

unfoldable pub read_metadata : String → Metadata → Metadata
read_metadata line found = record {
  endpoint = if starts_with line "// Endpoint:" then value_of line else found.endpoint;
  request = if starts_with line "// Request:" then value_of line else found.request;
  response = if starts_with line "// Response:" then value_of line else found.response;
}

unfoldable pub scan_metadata : List String → Metadata → Metadata
scan_metadata [] found = found
scan_metadata (line ∷ lines) found =
    let rest = scan_metadata lines (read_metadata (strip line) found) in
    if starts_with (strip line) "// Description:" then found else rest

-- The place in the backend of the known API with the endpoint.
unfoldable pub known_backend : String → List Api → Option Location
known_backend endpoint apis = elim (find? (λ (api : Api). api.endpoint == endpoint) apis) [
  | none ↦ none
  | some api ↦ api.backend
]

abbrev pub status_of : Option Location → String
status_of backend = if is_some backend then "implemented" else "mocked"

unfoldable pub new_api : String → String → ℕ → Metadata → List Api → Api
new_api description path line found known =
    let backend = known_backend found.endpoint known in
    record {
      description = description;
      endpoint = found.endpoint;
      request = found.request;
      response = found.response;
      frontend = record { path = path; line = line };
      backend = backend;
      status = status_of backend;
    }

-- The definitions in the lines of a file from the line with the index `i` on.
unfoldable pub apis_of_lines : String → List Api → ℕ → List String → List Api
apis_of_lines path known i [] = []
apis_of_lines path known i (line ∷ lines) =
    let rest = apis_of_lines path known (suc i) lines in
    let found = scan_metadata lines (record { endpoint = ""; request = ""; response = "" }) in
    if not (starts_with (strip line) "// Description:") || found.endpoint == ""
    then rest
    else new_api (value_of (strip line)) path (suc i) found known ∷ rest

abbrev pub apis_or_none : Option (List Api) → List Api
apis_or_none none = []
apis_or_none (some apis) = apis

unfoldable pub is_api_file : File → Bool
is_api_file f = same_texts (take 3 (parts f.path)) ("client" ∷ "src" ∷ "api" ∷ [])

unfoldable pub apis_of_files : List Api → List File → List Api
apis_of_files known [] = []
apis_of_files known (f ∷ files) =
    let rest = apis_of_files known files in
    if is_api_file f
    then apis_of_lines f.path known 0 (splitlines f.content.content) ++ rest
    else rest

-- The files are those of the next state, the places in the backend those of the current one.
unfoldable pub get_apis : ProjectState → ProjectState → List Api
get_apis current next = apis_of_files (apis_or_none current.knowledge_base.apis) next.files

-- `{"endpoint": endpoint, "line": line, "lines": lines}`, of which a caller may leave out entries.
pub record EndpointInfo : Type 0 where
  pub endpoint : String
  pub line : Option ℕ
  pub lines : Option (List ℕ)

pub record ImplementedFile : Type 0 where
  pub path : String
  pub endpoints : List EndpointInfo

unfoldable pub mark_api : String → String → ℕ → List Api → List Api
mark_api path endpoint line apis =
    update_first (λ (api : Api). endpoint == rstrip_char b'/' api.endpoint)
      (λ (api : Api). record api {
        status = "implemented";
        backend = some (record { path = path; line = line });
      })
      apis

-- `endpoint_info["line"]`
unfoldable pub line_of : EndpointInfo → Result ℕ
line_of info = elim (info.line) [ none ↦ raise (key_error "line") | some line ↦ ok line ]

unfoldable pub mark_endpoints : String → List EndpointInfo → List Api → Result (List Api)
mark_endpoints path [] apis = ok apis
mark_endpoints path (info ∷ infos) apis = do
  line ← line_of info
  mark_endpoints path infos (mark_api path (rstrip_char b'/' info.endpoint) line apis)

unfoldable pub mark_files : List ImplementedFile → List Api → Result (List Api)
mark_files [] apis = ok apis
mark_files (f ∷ files) apis = mark_endpoints f.path f.endpoints apis >>= mark_files files

abbrev pub set_apis : List Api → ProjectState → ProjectState
set_apis apis next = record next {
  knowledge_base = record next.knowledge_base { apis = some apis };
}

unfoldable pub update_apis :
    ProjectState → ProjectState → List ImplementedFile → Result ProjectState
update_apis current next files =
    mark_files files (get_apis current next) >>= λ apis. ok (set_apis apis next)

-- Where neither list has changed, assigning both leaves what is there.
unfoldable pub update_implemented_pages_and_apis : ProjectState → ProjectState → ProjectState
update_implemented_pages_and_apis current next = record next {
  knowledge_base = record next.knowledge_base {
    pages = some (get_implemented_pages next);
    apis = some (get_apis current next);
  };
}

unfoldable pub same_function : UtilityFunction → UtilityFunction → Bool
same_function f g = f.function_name == g.function_name && f.file == g.file

unfoldable pub put_function : UtilityFunction → List UtilityFunction → List UtilityFunction
put_function f gs =
    if any (same_function f) gs
    then update_first (same_function f)
        (λ g. record g {
          return_value = f.return_value;
          input_value = f.input_value;
          status = f.status;
        })
        gs
    else gs ++ f ∷ []

abbrev pub functions_or_none : Option (List UtilityFunction) → List UtilityFunction
functions_or_none none = []
functions_or_none (some fs) = fs

unfoldable pub update_utility_functions : UtilityFunction → ProjectState → ProjectState
update_utility_functions f next = record next {
  knowledge_base = record next.knowledge_base {
    utility_functions =
        some (put_function f (functions_or_none next.knowledge_base.utility_functions));
  };
}

unfoldable pub input_lines : ℕ → List String → List ℕ
input_lines i [] = []
input_lines i (line ∷ lines) =
    let rest = input_lines (suc i) lines in if is_in "INPUT_REQUIRED" line then i ∷ rest else rest

unfoldable pub get_input_required : String → String → List ℕ
get_input_required content file_path =
    if not (is_in ".env" file_path) then [] else input_lines 1 (splitlines content)
