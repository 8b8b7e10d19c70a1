-- ===== src/ProjectState/Files.antt =====
-- The files of a project state: what `save_file` changes, and that no path is listed twice, as the
-- constraint of core/db/models/file.py on (project_state_id, path) demands.
use gpt_pilot.Prelude.{
  String, ◌≡◌, refl, Bool, not, ◌&&◌, ◌||◌, Option, none, some, List, [], ◌∷◌, ◌++◌, ◌==◌,
  string_eq, arith, contains, find?, update_first, if◌then◌else◌, Option-cases, inl, inr,
  contains-append, false,
}
use gpt_pilot.Prelude.Dict.{lookup, lookup-insert, is_some, contains-keys}
use gpt_pilot.Result.{ok, Result-cases}
use gpt_pilot.Records.{File, FileContent}
use gpt_pilot.ProjectState.{
  ProjectState, find_file, get_file_by_path, get_file_content_by_path, set_content, store_file,
  save_file, or_empty,
}

-- The file that stands at a path after it is stored there.
abbrev pub stored : String → FileContent → Option File → File
stored path content none = record { path = path; content = content; meta = [] }
stored path content (some file) = record file { content = content }

pub path-find_file :
    (path : String) (files : List File) (f : File) → find_file path files ≡ some f → f.path ≡ path
unfolding find_file find?
path-find_file path [] f h = absurd (ground arith)
path-find_file path (g ∷ files) f h = ground (arith, path-find_file path files f)

find_file-set_content :
    (q path : String) (content : FileContent) (files : List File) (f : File)
    → find_file path files ≡ some f
    → find_file q (set_content path content files)
      ≡ (if q == path then some (record f { content = content }) else find_file q files)
unfolding find_file set_content find? update_first
find_file-set_content q path content [] f h = absurd (ground arith)
find_file-set_content q path content (g ∷ files) f h =
    ground (arith, find_file-set_content q path content files f)

find_file-append :
    (q : String) (files : List File) (f : File)
    → find_file f.path files ≡ none
    → find_file q (files ++ f ∷ []) ≡ (if q == f.path then some f else find_file q files)
unfolding find_file find?
find_file-append q [] f h = ground arith
find_file-append q (g ∷ files) f h = ground (arith, find_file-append q files f)

store_file-absent :
    (path : String) (content : FileContent) (files : List File)
    → find_file path files ≡ none
    → store_file path content files ≡ files ++ stored path content none ∷ []
unfolding store_file
store_file-absent path content files h = rw (h, store_file)

store_file-found :
    (path : String) (content : FileContent) (files : List File) (f : File)
    → find_file path files ≡ some f
    → store_file path content files ≡ set_content path content files
unfolding store_file
store_file-found path content files f h = rw (h, store_file)

pub find_file-store_file :
    (q path : String) (content : FileContent) (files : List File)
    → find_file q (store_file path content files)
      ≡ (if q == path then some (stored path content (find_file path files)) else find_file q files)
find_file-store_file q path content files = elim (Option-cases (find_file path files)) [
  | inl absent ↦
      rw (store_file-absent path content files absent, absent)
        (find_file-append q files (stored path content none) absent)
  | inr (f, found) ↦
      rw (store_file-found path content files f found, found)
        (find_file-set_content q path content files f found)
]

-- A writable state stores the file and stays writable.
pub save_file_total :
    (s : ProjectState) (path : String) (content : FileContent) (external : Bool)
    → s.has_next ≡ false
    → (s' : ProjectState) × (save_file s path content external ≡ ok s')
      × (s'.has_next ≡ false)
      × (s'.files ≡ store_file path content s.files)
unfolding save_file
save_file_total s path content external h =
    elim (Result-cases (save_file s path content external)) [
      | inl (s', e) ↦ (s', e, ground arith, ground arith)
      | inr (x, e) ↦ absurd (ground arith)
    ]

-- After `save_file` the path has the content that was saved, and every other path has the file
-- that it had.
pub get_file_by_path-save_file :
    (s : ProjectState) (q path : String) (content : FileContent) (external : Bool)
    {s' : ProjectState}
    → save_file s path content external ≡ ok s'
    → get_file_by_path s' q ≡ (
        if q == path
        then some (stored path content (get_file_by_path s path))
        else get_file_by_path s q)
unfolding save_file
get_file_by_path-save_file s q path content external h =
    ground (arith, find_file-store_file q path content s.files)

-- `modified_files` holds for each path the content from before its first change by an agent: a
-- path that is listed keeps its entry, and an external change lists nothing.
pub modified_files-save_file :
    (s : ProjectState) (q path : String) (content : FileContent) (external : Bool)
    {s' : ProjectState}
    → save_file s path content external ≡ ok s'
    → lookup q s'.modified_files ≡ (
        if q == path && not (is_some (lookup path s.modified_files)) && not external
        then some (get_file_content_by_path s path)
        else lookup q s.modified_files)
unfolding save_file
modified_files-save_file s q path content external h = ground (
  arith,
  contains-keys path s.modified_files,
  lookup-insert q path (get_file_content_by_path s path) s.modified_files,
)

-- A file is listed as relevant after `save_file`, whether the change was external or not, and no
-- other path becomes relevant.
pub relevant_files-save_file :
    (s : ProjectState) (q path : String) (content : FileContent) (external : Bool)
    {s' : ProjectState}
    → save_file s path content external ≡ ok s'
    → contains (or_empty s'.relevant_files) q
      ≡ (q == path || contains (or_empty s.relevant_files) q)
unfolding save_file
relevant_files-save_file s q path content external h =
    ground (arith, contains-append (or_empty s.relevant_files) (path ∷ []) q)

-- No path is listed twice.
abbrev pub UniquePaths : List File → Type 0
UniquePaths [] = Unit
UniquePaths (f ∷ files) = (find_file f.path files ≡ none) × UniquePaths files

find_file-set_content-none :
    (q path : String) (content : FileContent) (files : List File)
    → find_file q files ≡ none
    → find_file q (set_content path content files) ≡ none
unfolding find_file set_content find? update_first
find_file-set_content-none q path content [] h = refl
find_file-set_content-none q path content (g ∷ files) h =
    ground (arith, find_file-set_content-none q path content files)

set_content-UniquePaths :
    (path : String) (content : FileContent) (files : List File)
    → UniquePaths files
    → UniquePaths (set_content path content files)
unfolding set_content update_first
set_content-UniquePaths path content [] u = tt
set_content-UniquePaths path content (g ∷ files) u = ground (
  arith,
  set_content-UniquePaths path content files,
  find_file-set_content-none g.path path content files,
)

append-UniquePaths :
    (files : List File) (f : File)
    → find_file f.path files ≡ none
    → UniquePaths files
    → UniquePaths (files ++ f ∷ [])
unfolding find_file find?
append-UniquePaths [] f h u = (refl, tt)
append-UniquePaths (g ∷ files) f h u =
    ground (arith, append-UniquePaths files f, find_file-append g.path files f)

pub store_file-UniquePaths :
    (path : String) (content : FileContent) (files : List File)
    → UniquePaths files
    → UniquePaths (store_file path content files)
unfolding store_file
store_file-UniquePaths path content files u = elim (Option-cases (find_file path files)) [
  | inl absent ↦
      rw (store_file-absent path content files absent)
        (append-UniquePaths files (stored path content none) absent u)
  | inr (f, found) ↦
      rw (store_file-found path content files f found)
        (set_content-UniquePaths path content files u)
]
