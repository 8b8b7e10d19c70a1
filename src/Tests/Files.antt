-- ===== src/Tests/Files.antt =====
-- The files of a project against a workspace in memory.
use gpt_pilot.Prelude.{
  option_eq, string_eq, String, ◌≡◌, refl, false, none, some, List, [], ◌∷◌, find?, string_eq,
  select, contains, update_first, nat_eq, not, ◌≢◌, ◌==◌, arith,
}
use gpt_pilot.Result.{◌>>=◌, ok, raise, file_not_found}
use gpt_pilot.ProjectState.{find_file, save_file, set_content, store_file}
use gpt_pilot.ProjectState.Files.{UniquePaths}
use gpt_pilot.Vfs.Memory.{list, save, read, remove, sort, filter_by_prefix, ends_with_slash}
use gpt_pilot.Vfs.Memory.Laws.{IsSorted, file_system, list_lem, read-save, read-remove}
use gpt_pilot.StateManager.{
  ImportRun, import_files, get_modified_files, remove_missing, read_or_raise, is_unchanged,
  known_files,
}
use gpt_pilot.StateManager.Views.{view, disk_view}
use gpt_pilot.StateManager.Modified.{get_modified_files_lem}
use gpt_pilot.StateManager.Sync.{import_files_lem, get_modified_files-import_files}
use gpt_pilot.StateManager.Contents.{
  ModifiedFile, get_modified_files_with_content, paths_of, Describes,
  get_modified_files-with_content, get_modified_files_with_content_lem,
}
use gpt_pilot.StateManager.Saving.{save_project_file, save_project_file_lem}
use gpt_pilot.ProjectState.{ProjectState}
use gpt_pilot.StateManager.Views.{IsConsistent}
use gpt_pilot.Prelude.Dict.{Dict}
use gpt_pilot.Prelude.{if◌then◌else◌}
use gpt_pilot.Tests.Fixtures.{working, workspace}
use gpt_pilot.Prelude.Dict.{lookup, insert, is_some}

-- A hash without collisions.
abbrev identity : String → String
identity s = s

in_order : list workspace none ≡ "a.js" ∷ "c.js" ∷ []
unfolding list sort nat_eq
in_order = refl

lists_prefix :
    list (record { files = ("src/a", "1") ∷ ("srcs/b", "2") ∷ [] }) (some "src") ≡ "src/a" ∷ []
unfolding list sort filter_by_prefix string_eq select nat_eq ends_with_slash
lists_prefix = refl

-- `a.js` and `c.js` are imported, and `b.js` is removed.
imports :
    (st : ImportRun) × (import_files identity file_system workspace working working [] ≡ ok st)
    × (st.imported ≡ "a.js" ∷ "c.js" ∷ [])
    × (st.removed ≡ "b.js" ∷ [])
unfolding import_files list nat_eq read_or_raise lookup string_eq is_unchanged known_files insert
    save_file remove_missing find_file find? store_file set_content update_first
imports = (_, refl, refl, refl)

modified : get_modified_files file_system workspace working ≡ ok ("a.js" ∷ "c.js" ∷ "b.js" ∷ [])
unfolding get_modified_files list nat_eq read_or_raise lookup string_eq is_unchanged find_file find?
modified = refl

working-UniquePaths : UniquePaths working.files
unfolding find_file find? string_eq
working-UniquePaths = (refl, (refl, tt))

no_row : (h c : String) → lookup h [] ≢ some c
unfolding lookup
no_row h c e = ground arith

import_files_lem_example :
    (st : ImportRun) × (import_files identity file_system workspace working working [] ≡ ok st)
    × (st.next.has_next ≡ false)
    × UniquePaths st.next.files
    × ((q : String) → view st.next.files q ≡ disk_view file_system workspace q)
import_files_lem_example =
    import_files_lem identity (λ a b h. h) file_system workspace working working [] refl
      working-UniquePaths refl (λ h c e. absurd (no_row h c e))

get_modified_files-import_files_example :
    (st : ImportRun) × (import_files identity file_system workspace working working [] ≡ ok st)
    × (get_modified_files file_system workspace st.next ≡ ok [])
get_modified_files-import_files_example =
    get_modified_files-import_files identity (λ a b h. h) file_system workspace working working []
      refl working-UniquePaths refl (λ h c e. absurd (no_row h c e))

get_modified_files_lem_example :
    (l : List String) × (get_modified_files file_system workspace working ≡ ok l)
    × ((q : String)
        → contains l q ≡ not (view working.files q == disk_view file_system workspace q))
get_modified_files_lem_example = get_modified_files_lem file_system workspace working

list_lem_run :
    IsSorted (list workspace none)
    × ((p : String) → contains (list workspace none) p ≡ is_some (lookup p workspace.files))
list_lem_run = list_lem workspace

reads_saved : read (save workspace "d.js" "x") "d.js" ≡ ok "x"
unfolding string_eq
reads_saved = read-save workspace "d.js" "x" "d.js"

misses_removed : read (remove workspace "a.js") "a.js" ≡ raise (file_not_found "a.js")
unfolding string_eq
misses_removed = read-remove workspace "a.js" "a.js"

get_modified_files-with_content_example :
    get_modified_files file_system workspace working
    ≡ (get_modified_files_with_content file_system workspace working >>= λ l. ok (paths_of l))
get_modified_files-with_content_example =
    get_modified_files-with_content file_system workspace working

-- What a user changed, with the old and the new contents.
modified_with_content :
    (l : List ModifiedFile) × (get_modified_files_with_content file_system workspace working ≡ ok l)
    × (paths_of l ≡ "a.js" ∷ "c.js" ∷ "b.js" ∷ [])
unfolding get_modified_files_with_content list nat_eq read_or_raise lookup string_eq find_file find?
    option_eq
modified_with_content = (_, refl, refl)

get_modified_files_with_content_lem_example :
    (l : List ModifiedFile) × (get_modified_files_with_content file_system workspace working ≡ ok l)
    × Describes (view working.files) (disk_view file_system workspace) l
    × ((q : String)
        → contains (paths_of l) q ≡ not (view working.files q == disk_view file_system workspace q))
get_modified_files_with_content_lem_example =
    get_modified_files_with_content_lem file_system workspace working working-UniquePaths

save_project_file_lem_example :
    (next : ProjectState) × (table : Dict String) × (save_project_file identity file_system
        workspace working [] "a.js" "x" []
      ≡ (save workspace "a.js" "x", ok (next, table)))
    × ((q : String) → view next.files q ≡ (if q == "a.js" then some "x" else view working.files q))
    × IsConsistent identity table
unfolding lookup string_eq
save_project_file_lem_example =
    save_project_file_lem identity (λ a b h. h) file_system workspace working [] "a.js" "x" _ []
      refl refl (λ h c e. absurd (no_row h c e))
