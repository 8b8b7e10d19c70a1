-- ===== src/StateManager/Saving.antt =====
-- `StateManager.save_file`: the file goes to the disk at once and to the next state.
use gpt_pilot.Prelude.{
  String, ◌≡◌, refl, false, some, List, [], ◌∷◌, ◌==◌, string_eq, is_empty, update_first, find?,
  arith, if◌then◌else◌, ap,
}
use gpt_pilot.Prelude.Dict.{Dict, lookup}
use gpt_pilot.Result.{Result, ok, raise, value_error, ◌>>=◌}
use gpt_pilot.Records.{File}
use gpt_pilot.ProjectState.{ProjectState, save_file, find_file}
use gpt_pilot.ProjectState.Files.{save_file_total}
use gpt_pilot.Vfs.{FileSystem}
use gpt_pilot.StateManager.{store, read_or_raise}
use gpt_pilot.StateManager.Views.{
  view, view-store_file, IsConsistent, content-store, read_or_raise-some,
}

-- `except ValueError: original_content = ""`
unfoldable pub or_blank_on_value_error : Result String → Result String
or_blank_on_value_error (ok content) = ok content
or_blank_on_value_error (raise (value_error message)) = ok ""
or_blank_on_value_error (raise error) = raise error

-- `if metadata: file.meta = metadata`
unfoldable pub set_metadata : String → Dict String → List File → List File
set_metadata path metadata files =
    if is_empty metadata
    then files
    else update_first (λ f. path == f.path) (λ f. record f { meta = metadata }) files

module _ (hash_string : String → String) (fs : FileSystem) where
  open fs use {Disk, read, save}

  -- `StateManager.save_file`: the disk that is left and the outcome.
  unfoldable pub save_project_file :
      Disk
      → ProjectState
      → Dict String
      → String
      → String
      → Dict String
      → Disk × Result (ProjectState × Dict String)
  save_project_file d next table path content metadata =
      elim (or_blank_on_value_error (read_or_raise fs d path)) [
        | raise error ↦ (d, raise error)
        | ok original ↦ (
          save d path content,
          do
            let (row, table') = store table (hash_string content) content
            next' ← save_file next path row false
            ok (record next' { files = set_metadata path metadata next'.files }, table'),
        )
      ]

find_file-set_metadata :
    (path : String) (metadata : Dict String) (files : List File) (q : String)
    → view (update_first (λ f. path == f.path) (λ f. record f { meta = metadata }) files) q
      ≡ view files q
unfolding view find_file find? update_first
find_file-set_metadata path metadata [] q = refl
find_file-set_metadata path metadata (f ∷ files) q =
    ground (arith, find_file-set_metadata path metadata files q)

view-set_metadata :
    (path : String) (metadata : Dict String) (files : List File) (q : String)
    → view (set_metadata path metadata files) q ≡ view files q
unfolding set_metadata
view-set_metadata path metadata files q =
    ground (arith, find_file-set_metadata path metadata files q)

module _ (hash_string : String → String)
    (injective : (a b : String) → hash_string a ≡ hash_string b → a ≡ b) (fs : FileSystem) where
  open fs use {Disk, read, save}

  pub save_project_file_lem :
      (d : Disk) (next : ProjectState) (table : Dict String) (path content old : String)
      (metadata : Dict String)
      → read d path ≡ some old
      → next.has_next ≡ false
      → IsConsistent hash_string table
      → (next' : ProjectState) × (table' : Dict String) × (save_project_file hash_string fs d next
            table path content metadata
          ≡ (save d path content, ok (next', table')))
        × ((q : String)
            → view next'.files q ≡ (if q == path then some content else view next.files q))
        × IsConsistent hash_string table'
  unfolding save_project_file or_blank_on_value_error read_or_raise store set_metadata lookup
      update_first
  save_project_file_lem d next table path content old metadata found writable consistent =
      let row = (store table (hash_string content) content).0 in
      let (next', saved, _, files) = save_file_total next path row false writable in
      let (same, consistent') = content-store hash_string injective table content consistent in
      (
        record next' { files = set_metadata path metadata next'.files },
        (store table (hash_string content) content).1,
        rw (save_project_file, read_or_raise-some fs d path old found, saved) refl,
        λ q. ground (
          arith,
          view-set_metadata path metadata next'.files q,
          ap (λ l. view l q) files,
          view-store_file path row next.files q,
          same,
        ),
        consistent',
      )
