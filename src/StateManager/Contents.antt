-- ===== src/StateManager/Contents.antt =====
-- `StateManager.get_modified_files_with_content`, and that it agrees with `get_modified_files`.
use gpt_pilot.Prelude.{
  String, ◌≡◌, refl, ap, Option, none, some, List, [], ◌∷◌, ◌++◌, map, ◌==◌, string_eq, option_eq,
  contains, arith, if◌then◌else◌, find?, true, ==_refl, subst, inl, inr, sym, ◌∙◌, not,
}
use gpt_pilot.Prelude.Dict.{is_some}
use gpt_pilot.Result.{Result, Result-cases, ok, ◌>>=◌, >>=-eq-ok, ok-injective}
use gpt_pilot.Records.{File}
use gpt_pilot.ProjectState.{ProjectState, find_file}
use gpt_pilot.ProjectState.Files.{UniquePaths}
use gpt_pilot.Vfs.{FileSystem}
use gpt_pilot.StateManager.{
  is_unchanged, read_or_raise, modified_listed, modified_removed, get_modified_files,
}
use gpt_pilot.StateManager.Views.{content_of, view, disk_view}
use gpt_pilot.StateManager.Modified.{get_modified_files_lem}

pub record ModifiedFile : Type 0 where
  pub path : String
  pub file_old : Option String
  pub file_new : String

unfoldable pub removed_with_content : List String → List File → List ModifiedFile
removed_with_content listed [] = []
removed_with_content listed (f ∷ files) =
    let rest = removed_with_content listed files in
    if contains listed f.path
    then rest
    else record { path = f.path; file_old = some f.content.content; file_new = "" } ∷ rest

abbrev pub paths_of : List ModifiedFile → List String
paths_of = map (λ m. m.path)

paths_of-append : (l l' : List ModifiedFile) → paths_of (l ++ l') ≡ paths_of l ++ paths_of l'
paths_of-append [] l' = refl
paths_of-append (m ∷ l) l' = ap (λ r. m.path ∷ r) (paths_of-append l l')

paths_of-removed_with_content :
    (listed : List String) (files : List File)
    → paths_of (removed_with_content listed files) ≡ modified_removed listed files
unfolding removed_with_content modified_removed
paths_of-removed_with_content listed [] = refl
paths_of-removed_with_content listed (f ∷ files) =
    ground (arith, paths_of-removed_with_content listed files)

-- The text of a path, blank if there is none.
abbrev pub or_blank : Option String → String
or_blank none = ""
or_blank (some content) = content

-- Every entry has the content of its path in the project and on the disk.
abbrev pub Describes :
    (String → Option String) → (String → Option String) → List ModifiedFile → Type 0
Describes old new [] = Unit
Describes old new (m ∷ l) =
    (m.file_old ≡ old m.path) × (m.file_new ≡ or_blank (new m.path)) × Describes old new l

Describes-append :
    (old new : String → Option String) (l l' : List ModifiedFile)
    → Describes old new l
    → Describes old new l'
    → Describes old new (l ++ l')
Describes-append old new [] l' h h' = h'
Describes-append old new (m ∷ l) l' (a, b, h) h' = (a, b, Describes-append old new l l' h h')

module _ (fs : FileSystem) where
  open fs use {Disk, list, read, visible, contains-list}

  unfoldable pub listed_with_content : Disk → List File → List String → Result (List ModifiedFile)
  listed_with_content d files [] = ok []
  listed_with_content d files (path ∷ paths) = do
    content ← read_or_raise fs d path
    rest ← listed_with_content d files paths
    let saved = content_of (find_file path files)
    ok (
        if saved == some content
        then rest
        else record { path = path; file_old = saved; file_new = content } ∷ rest)

  unfoldable pub get_modified_files_with_content : Disk → ProjectState → Result (List ModifiedFile)
  unfolding listed_with_content removed_with_content
  get_modified_files_with_content d current = do
    modified ← listed_with_content d current.files (list d)
    ok (modified ++ removed_with_content (list d) current.files)

  modified_listed-listed_with_content :
      (d : Disk) (files : List File) (paths : List String)
      → modified_listed fs d files paths
        ≡ (listed_with_content d files paths >>= λ l. ok (paths_of l))
  unfolding modified_listed listed_with_content is_unchanged
  modified_listed-listed_with_content d files [] = refl
  modified_listed-listed_with_content d files (path ∷ paths) =
      ground (arith, modified_listed-listed_with_content d files paths)

  -- Both methods list the same paths in the same order, and raise together.
  pub get_modified_files-with_content :
      (d : Disk) (current : ProjectState)
      → get_modified_files fs d current
        ≡ (get_modified_files_with_content d current >>= λ l. ok (paths_of l))
  unfolding get_modified_files get_modified_files_with_content
  get_modified_files-with_content d current =
      let removed = removed_with_content (list d) current.files in
      let step = modified_listed-listed_with_content d current.files (list d) in
      let same = paths_of-removed_with_content (list d) current.files in
      elim (Result-cases (listed_with_content d current.files (list d))) [
        | inl (l, run) ↦ ground (arith, run, step, same, paths_of-append l removed)
        | inr (error, run) ↦ ground (arith, run, step)
      ]

  Describes-listed_with_content :
      (d : Disk) (files : List File) (paths : List String)
      → ((p : String) → contains paths p ≡ true → visible d p ≡ true)
      → (l : List ModifiedFile) → listed_with_content d files paths ≡ ok l
      → Describes (view files) (disk_view fs d) l
  unfolding listed_with_content read_or_raise view
  Describes-listed_with_content d files [] shown l run =
      subst (Describes (view files) (disk_view fs d)) (ok-injective run) tt
  Describes-listed_with_content d files (path ∷ paths) shown l run =
      let (content, found, chain) = >>=-eq-ok (read_or_raise fs d path) _ run in
      let (rest, run', last) = >>=-eq-ok (listed_with_content d files paths) _ chain in
      let others =
        Describes-listed_with_content d files paths (λ p h. shown p (ground arith)) rest run' in
      let seen = shown path (ground (arith, ==_refl path)) in
      ground (arith, found, last, others, seen)

  Describes-removed_with_content :
      (d : Disk) (all files : List File)
      → UniquePaths files
      → ((q : String) → is_some (find_file q files) ≡ true → find_file q all ≡ find_file q files)
      → Describes (view all) (disk_view fs d) (removed_with_content (list d) files)
  unfolding removed_with_content find_file find? view
  Describes-removed_with_content d all [] unique same = tt
  Describes-removed_with_content d all (f ∷ files) unique same =
      let others =
        Describes-removed_with_content d all files unique.1
          (λ q h. ground (arith, same q, unique.0)) in
      ground (arith, others, same f.path, ==_refl f.path, contains-list d f.path)

  get_modified_files_with_content-Describes :
      (d : Disk) (current : ProjectState) (l : List ModifiedFile)
      → UniquePaths current.files
      → get_modified_files_with_content d current ≡ ok l
      → Describes (view current.files) (disk_view fs d) l
  unfolding get_modified_files_with_content
  get_modified_files_with_content-Describes d current l unique run =
      let (listed, run', last) = >>=-eq-ok (listed_with_content d current.files (list d)) _ run in
      subst (Describes (view current.files) (disk_view fs d)) (ok-injective last) (
        Describes-append (view current.files) (disk_view fs d) listed
          (removed_with_content (list d) current.files)
          (Describes-listed_with_content d current.files (list d)
            (λ p h. ground (arith, contains-list d p)) listed run')
          (Describes-removed_with_content d current.files current.files unique (λ q h. refl)))

  -- For a project without a doubled path the method does not raise. It has an entry for a path exactly
  -- if the project and the disk differ there, with the old content that the project has at the path and
  -- the new content that the disk shows there, blank for a file that is gone or hidden.
  pub get_modified_files_with_content_lem :
      (d : Disk) (current : ProjectState)
      → UniquePaths current.files
      → (l : List ModifiedFile) × (get_modified_files_with_content d current ≡ ok l)
        × Describes (view current.files) (disk_view fs d) l
        × ((q : String) → contains (paths_of l) q ≡ not (view current.files q == disk_view fs d q))
  get_modified_files_with_content_lem d current unique =
      let (paths, listed, differs) = get_modified_files_lem fs d current in
      let same = get_modified_files-with_content d current in
      let (l, run, last) =
        >>=-eq-ok (get_modified_files_with_content d current) _ (sym same ∙ listed) in
      (
        l,
        run,
        get_modified_files_with_content-Describes d current l unique run,
        λ q. ap (λ ps. contains ps q) (ok-injective last) ∙ differs q,
      )
