-- ===== src/StateManager/Knowledge/Marking.antt =====
-- The list of APIs in core/state/state_manager.py: which of them count as implemented.
use gpt_pilot.Prelude.{
  if◌then◌else◌, ℕ, suc, ◌≡◌, refl, subst, String, List, [], ◌∷◌, ◌++◌, update_first, string_eq,
  arith,
}
use gpt_pilot.Prelude.Dict.{is_some}
use gpt_pilot.Result.{ok, ok-injective, >>=-eq-ok}
use gpt_pilot.Records.{Api, File}
use gpt_pilot.ProjectState.{ProjectState}
use gpt_pilot.StateManager.Knowledge.{
  EndpointInfo, ImplementedFile, new_api, apis_of_lines, apis_of_files, apis_or_none, get_apis,
  mark_api, mark_endpoints, mark_files, update_apis, update_implemented_pages_and_apis,
  get_implemented_pages, line_of, set_apis,
}
use gpt_pilot.Prelude.Strings.{splitlines}

-- An API counts as implemented where it has a place in the backend, else as mocked.
abbrev pub IsMarked : List Api → Type 0
IsMarked [] = Unit
IsMarked (api ∷ apis) =
    (api.status ≡ (if is_some api.backend then "implemented" else "mocked")) × IsMarked apis

IsMarked-append : (apis more : List Api) → IsMarked apis → IsMarked more → IsMarked (apis ++ more)
IsMarked-append [] more marked marked' = marked'
IsMarked-append (api ∷ apis) more marked marked' =
    (marked.0, IsMarked-append apis more marked.1 marked')

IsMarked-apis_of_lines :
    (path : String) (known : List Api) (i : ℕ) (lines : List String)
    → IsMarked (apis_of_lines path known i lines)
unfolding apis_of_lines new_api
IsMarked-apis_of_lines path known i [] = tt
IsMarked-apis_of_lines path known i (line ∷ lines) =
    ground (arith, IsMarked-apis_of_lines path known (suc i) lines)

IsMarked-apis_of_files :
    (known : List Api) (files : List File) → IsMarked (apis_of_files known files)
unfolding apis_of_files
IsMarked-apis_of_files known [] = tt
IsMarked-apis_of_files known (f ∷ files) = ground (
  arith,
  IsMarked-apis_of_files known files,
  IsMarked-append (apis_of_lines f.path known 0 (splitlines f.content.content))
      (apis_of_files known files)
      (IsMarked-apis_of_lines f.path known 0 (splitlines f.content.content))
      (IsMarked-apis_of_files known files),
)

IsMarked-mark_api :
    (path endpoint : String) (line : ℕ) (apis : List Api)
    → IsMarked apis
    → IsMarked (mark_api path endpoint line apis)
unfolding mark_api update_first
IsMarked-mark_api path endpoint line [] marked = tt
IsMarked-mark_api path endpoint line (api ∷ apis) marked =
    ground (arith, marked.0, marked.1, IsMarked-mark_api path endpoint line apis marked.1)

IsMarked-mark_endpoints :
    (path : String) (infos : List EndpointInfo) (apis apis' : List Api)
    → IsMarked apis
    → mark_endpoints path infos apis ≡ ok apis'
    → IsMarked apis'
unfolding mark_endpoints
IsMarked-mark_endpoints path [] apis apis' marked e =
    subst (λ l. IsMarked l) (ok-injective e) marked
IsMarked-mark_endpoints path (info ∷ infos) apis apis' marked e =
    let (line, found, rest) = >>=-eq-ok (line_of info) _ e in
    IsMarked-mark_endpoints path infos _ apis' (IsMarked-mark_api path _ line apis marked) rest

IsMarked-mark_files :
    (files : List ImplementedFile) (apis apis' : List Api)
    → IsMarked apis
    → mark_files files apis ≡ ok apis'
    → IsMarked apis'
unfolding mark_files
IsMarked-mark_files [] apis apis' marked e = subst (λ l. IsMarked l) (ok-injective e) marked
IsMarked-mark_files (f ∷ files) apis apis' marked e =
    let (middle, first, rest) =
      >>=-eq-ok (mark_endpoints f.path f.endpoints apis) (mark_files files) e in
    IsMarked-mark_files files middle apis'
      (IsMarked-mark_endpoints f.path f.endpoints apis middle marked first) rest

-- After `update_apis` every API of the next state counts as implemented exactly where it has a place
-- in the backend.
pub update_apis-IsMarked :
    (current next next' : ProjectState) (files : List ImplementedFile)
    → update_apis current next files ≡ ok next'
    → IsMarked (apis_or_none next'.knowledge_base.apis)
unfolding update_apis get_apis
update_apis-IsMarked current next next' files e =
    let (apis, marks, rest) = >>=-eq-ok (mark_files files (get_apis current next)) _ e in
    subst (λ (s : ProjectState). IsMarked (apis_or_none s.knowledge_base.apis)) (ok-injective rest)
      (IsMarked-mark_files files (get_apis current next) apis
        (IsMarked-apis_of_files (apis_or_none current.knowledge_base.apis) next.files) marks)

pub update_implemented_pages_and_apis-set_apis :
    (current next : ProjectState) (apis : List Api)
    → update_implemented_pages_and_apis current (set_apis apis next)
      ≡ update_implemented_pages_and_apis current next
unfolding update_implemented_pages_and_apis get_apis get_implemented_pages
update_implemented_pages_and_apis-set_apis current next apis = refl

-- The update of pages and APIs after `update_apis` gives what it gives without it: no API keeps the
-- place in the backend that `update_apis` has set.
pub update_implemented_pages_and_apis-update_apis :
    (current next next' : ProjectState) (files : List ImplementedFile)
    → update_apis current next files ≡ ok next'
    → update_implemented_pages_and_apis current next'
      ≡ update_implemented_pages_and_apis current next
unfolding update_apis
update_implemented_pages_and_apis-update_apis current next next' files e =
    let (apis, marks, rest) = >>=-eq-ok (mark_files files (get_apis current next)) _ e in
    subst
      (λ (s : ProjectState).
        update_implemented_pages_and_apis current s
        ≡ update_implemented_pages_and_apis current next)
      (ok-injective rest) (update_implemented_pages_and_apis-set_apis current next apis)
