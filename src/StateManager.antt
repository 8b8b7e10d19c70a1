-- ===== src/StateManager.antt =====
-- class StateManager of core/state/state_manager.py. The files are kept in step between the disk and
-- the states by `import_files`, `restore_files` and `get_modified_files`, over any FileSystem; the
-- session holds the current and the next state.
pub mod Views
pub mod Import
pub mod Removal
pub mod Restore
pub mod Modified
pub mod Sync
pub mod Contents
pub mod Session
pub mod Saving
pub mod Knowledge
use gpt_pilot.Prelude.{
  ℕ, String, ◌≡◌, Bool, true, false, not, Option, none, some, List, [], ◌∷◌, ◌++◌, ◌==◌, string_eq,
  contains, erase_first, if◌then◌else◌,
}
use gpt_pilot.Prelude.Dict.{Dict, lookup, insert, is_some, keys}
use gpt_pilot.Result.{Result, ok, raise, value_error, file_not_found, ◌>>=◌, ◌>>◌}
use gpt_pilot.Records.{File, FileContent}
use gpt_pilot.ProjectState.{ProjectState, find_file, save_file}
use gpt_pilot.Vfs.{FileSystem}

-- FileContent.store of core/db/models/file_content.py: the row of the hash if there is one, else a
-- new row. The table goes from hashes to contents.
unfoldable pub store : Dict String → String → String → FileContent × Dict String
store table hash content = elim (lookup hash table) [
  | some old ↦ (record { hash = hash; content = old }, table)
  | none ↦ (record { hash = hash; content = content }, insert hash content table)
]

-- `{file.path: file for file in files}`
unfoldable pub known_files_from : List File → Dict File → Dict File
known_files_from [] known = known
known_files_from (f ∷ files) known = known_files_from files (insert f.path f known)

unfoldable pub known_files : List File → Dict File
unfolding known_files_from
known_files files = known_files_from files []

-- `saved_file and saved_file.content.content == content`
unfoldable pub is_unchanged : Option File → String → Bool
is_unchanged none content = false
is_unchanged (some file) content = file.content.content == content

-- `files.remove(file)` at the first file of the path, which `get_file_by_path` gave.
unfoldable pub remove_file : String → List File → List File
remove_file path = erase_first (λ f. path == f.path)

-- The variables of `import_files` while it runs: the next state, the rows of the contents, and the
-- paths of the files imported and removed so far.
pub record ImportRun : Type 0 where
  pub next : ProjectState
  pub table : Dict String
  pub imported : List String
  pub removed : List String

-- What `import_files` does to a file of the project that is not in the workspace.
unfoldable pub remove_missing : List String → Dict File → ImportRun → Result ImportRun
remove_missing listed [] st = ok st
remove_missing listed ((path, file) ∷ known) st =
    let rest = remove_missing listed known in
    if contains listed path then rest st else elim (find_file path st.next.files) [
      | none ↦ raise (value_error "list.remove(x): x not in list")
      | some found ↦ rest (record st {
        next = record (st.next) { files = remove_file path st.next.files };
        removed = st.removed ++ path ∷ [];
      })
    ]

unfoldable pub modified_removed : List String → List File → List String
modified_removed listed [] = []
modified_removed listed (f ∷ files) =
    let rest = modified_removed listed files in
    if contains listed f.path then rest else f.path ∷ rest

module _ (fs : FileSystem) where
  open fs use {Disk, read, save, remove, list}

  unfoldable pub read_or_raise : Disk → String → Result String
  read_or_raise d path = elim (read d path) [
    | some content ↦ ok content
    | none ↦ raise (file_not_found path)
  ]

  unfoldable pub remove_unknown : Dict File → List String → Disk → Disk
  remove_unknown known [] d = d
  remove_unknown known (path ∷ paths) d =
      remove_unknown known paths (if is_some (lookup path known) then d else remove d path)

  unfoldable pub save_known : Dict File → Disk → Disk
  save_known [] d = d
  save_known ((path, file) ∷ known) d = save_known known (save d path file.content.content)

  unfoldable pub restore_files : ProjectState → Disk → Disk
  unfolding remove_unknown save_known
  restore_files current d =
      let known = known_files current.files in save_known known (remove_unknown known (list d) d)

  unfoldable pub modified_listed : Disk → List File → List String → Result (List String)
  modified_listed d files [] = ok []
  modified_listed d files (path ∷ paths) = do
    content ← read_or_raise d path
    rest ← modified_listed d files paths
    ok (if is_unchanged (find_file path files) content then rest else path ∷ rest)

  unfoldable pub get_modified_files : Disk → ProjectState → Result (List String)
  unfolding modified_listed modified_removed
  get_modified_files d current = do
    modified ← modified_listed d current.files (list d)
    ok (modified ++ modified_removed (list d) current.files)

  unfoldable pub workspace_is_empty : Disk → Bool
  workspace_is_empty d = elim (list d) [ [] ↦ true | _ ∷ _ ↦ false ]

module _ (hash_string : String → String) (fs : FileSystem) where
  open fs use {Disk, list}

  -- One round of the loop over the listing.
  unfoldable pub import_path : Disk → Dict File → String → ImportRun → Result ImportRun
  import_path d known path st = do
    content ← read_or_raise fs d path
    if is_unchanged (lookup path known) content then ok st else do
      let (row, table') = store st.table (hash_string content) content
      next' ← save_file st.next path row true
      ok (record st { next = next'; table = table'; imported = st.imported ++ path ∷ [] })

  unfoldable pub import_listed : Disk → Dict File → List String → ImportRun → Result ImportRun
  unfolding import_path
  import_listed d known [] st = ok st
  import_listed d known (path ∷ paths) st =
      import_path d known path st >>= import_listed d known paths

  unfoldable pub import_files : Disk → ProjectState → ProjectState → Dict String → Result ImportRun
  unfolding import_listed
  import_files d current next table = do
    let known = known_files current.files
    st ←
        import_listed d known (list d)
          (record { next = next; table = table; imported = []; removed = [] })
    remove_missing (list d) known st
