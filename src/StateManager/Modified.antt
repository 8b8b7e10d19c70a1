-- ===== src/StateManager/Modified.antt =====
-- `StateManager.get_modified_files` does not raise, and lists exactly the paths at which the project
-- and the disk differ.
use gpt_pilot.Prelude.{
  String, ◌≡◌, ◌∙◌, refl, ap, true, false, not, ◌&&◌, Option, none, some, List, [], ◌∷◌, ◌++◌, ◌==◌,
  string_eq, option_eq, contains, contains-append, arith, if◌then◌else◌, find?, ==_refl,
}
use gpt_pilot.Prelude.Dict.{is_some}
use gpt_pilot.Result.{ok}
use gpt_pilot.Records.{File}
use gpt_pilot.ProjectState.{ProjectState, find_file}
use gpt_pilot.Vfs.{FileSystem}
use gpt_pilot.StateManager.{is_unchanged, modified_listed, modified_removed, get_modified_files}
use gpt_pilot.StateManager.Views.{view, content_of, disk_view, some_of_is_some, read_or_raise-some}

nil_of_contains : (l : List String) → ((q : String) → contains l q ≡ false) → l ≡ []
nil_of_contains [] h = refl
nil_of_contains (x ∷ l) h = absurd (ground (arith, h x, ==_refl x))

is_unchanged_lem : (o : Option File) (c : String) → is_unchanged o c ≡ (content_of o == some c)
unfolding is_unchanged
is_unchanged_lem none c = ground arith
is_unchanged_lem (some f) c = ground arith

contains-modified_removed :
    (listed : List String) (files : List File) (q : String)
    → contains (modified_removed listed files) q
      ≡ (is_some (find_file q files) && not (contains listed q))
unfolding modified_removed find_file find?
contains-modified_removed listed [] q = refl
contains-modified_removed listed (f ∷ files) q =
    ground (arith, contains-modified_removed listed files q)

module _ (fs : FileSystem) (d : fs.Disk) where
  open fs use {read, list, visible, contains-list}

  modified_listed_lem :
      (files : List File) (paths : List String)
      → ((p : String) → contains paths p ≡ true → is_some (read d p) ≡ true)
      → (l : List String) × (modified_listed fs d files paths ≡ ok l)
        × ((q : String) → contains l q ≡ (contains paths q && not (view files q == read d q)))
  unfolding modified_listed view
  modified_listed_lem files [] readable = ([], refl, λ q. refl)
  modified_listed_lem files (path ∷ paths) readable =
      let (c, found) =
        some_of_is_some (read d path) (readable path (ground (arith, ==_refl path))) in
      let (l, run, listed) = modified_listed_lem files paths (λ p h. readable p (ground arith)) in
      (
        (if is_unchanged (find_file path files) c then l else path ∷ l),
        rw (read_or_raise-some fs d path c found) (rw run),
        λ q. ground (arith, listed q, is_unchanged_lem (find_file path files) c),
      )

  -- The call does not raise, and its result has a path exactly if the content that the project has
  -- there is not the one that the disk shows.
  pub get_modified_files_lem :
      (current : ProjectState)
      → (l : List String) × (get_modified_files fs d current ≡ ok l)
        × ((q : String) → contains l q ≡ not (view current.files q == disk_view fs d q))
  unfolding get_modified_files
  get_modified_files_lem current =
      let (l, run, listed) =
        modified_listed_lem current.files (list d) (λ p h. ground (arith, contains-list d p)) in
      (
        l ++ modified_removed (list d) current.files,
        rw run,
        λ q.
            unfold view in
            ground (
              arith,
              listed q,
              contains-append l (modified_removed (list d) current.files) q,
              contains-modified_removed (list d) current.files q,
              contains-list d q,
            ),
      )

  pub get_modified_files_none :
      (current : ProjectState)
      → ((q : String) → view current.files q ≡ disk_view fs d q)
      → get_modified_files fs d current ≡ ok []
  get_modified_files_none current same =
      let (l, run, differs) = get_modified_files_lem current in
      run ∙ ap ok (nil_of_contains l (λ q. ground (arith, differs q, same q)))
