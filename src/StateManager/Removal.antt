-- ===== src/StateManager/Removal.antt =====
-- The second loop of `StateManager.import_files`: files of the project that are not in the workspace
-- are removed from the next state, and nothing else is.
use gpt_pilot.Prelude.{
  String, ◌≡◌, none, List, [], ◌∷◌, ◌==◌, string_eq, erase_first, arith, if◌then◌else◌, find?, true,
  some, Option-cases, inl, inr, contains, false, ◌&&◌, not, Bool-cases, ◌++◌, refl,
}
use gpt_pilot.Records.{File}
use gpt_pilot.ProjectState.{find_file}
use gpt_pilot.ProjectState.Files.{UniquePaths}
use gpt_pilot.StateManager.{remove_file, remove_missing, ImportRun, ok}
use gpt_pilot.Prelude.Dict.{lookup, is_some, Dict}
use gpt_pilot.StateManager.Views.{view, UniqueKeys}

find_file-remove_file :
    (q path : String) (files : List File)
    → UniquePaths files
    → find_file q (remove_file path files) ≡ (if q == path then none else find_file q files)
unfolding find_file remove_file find? erase_first
find_file-remove_file q path [] u = ground arith
find_file-remove_file q path (f ∷ files) u = ground (arith, find_file-remove_file q path files)

pub remove_file-UniquePaths :
    (path : String) (files : List File) → UniquePaths files → UniquePaths (remove_file path files)
unfolding remove_file erase_first
remove_file-UniquePaths path [] u = tt
remove_file-UniquePaths path (f ∷ files) u =
    ground (arith, remove_file-UniquePaths path files, find_file-remove_file f.path path files)

view-remove_file :
    (path : String) (files : List File) (q : String)
    → UniquePaths files
    → view (remove_file path files) q ≡ (if q == path then none else view files q)
unfolding view
view-remove_file path files q u = ground (arith, find_file-remove_file q path files)

find_of_view :
    (path : String) (files : List File)
    → is_some (view files path) ≡ true
    → (f : File) × (find_file path files ≡ some f)
unfolding view
find_of_view path files h = elim (Option-cases (find_file path files)) [
  | inl absent ↦ absurd (ground arith)
  | inr found ↦ found
]

-- The removal does not raise, where every row of `known` that is not listed is a file of the next
-- state.
pub remove_missing_lem :
    (listed : List String) (known : Dict File) (st : ImportRun)
    → UniqueKeys known
    → UniquePaths st.next.files
    → ((q : String)
        → is_some (lookup q known) ≡ true
        → contains listed q ≡ false
        → is_some (view st.next.files q) ≡ true)
    → (st' : ImportRun) × (remove_missing listed known st ≡ ok st')
      × (st'.next.has_next ≡ st.next.has_next)
      × UniquePaths st'.next.files
      × ((q : String)
          → view st'.next.files q ≡ (
              if is_some (lookup q known) && not (contains listed q)
              then none
              else view st.next.files q))
unfolding remove_missing lookup
remove_missing_lem listed [] st uk up present = (st, refl, refl, up, λ q. refl)
remove_missing_lem listed ((path, file) ∷ known) st uk up present =
    elim (Bool-cases (contains listed path)) [
      | inl there ↦
          let (st', run, frozen, unique, views) =
            remove_missing_lem listed known st uk.1 up (λ q k l. present q (ground arith) l) in
          (st', rw there run, frozen, unique, λ q. ground (arith, views q))
      | inr gone ↦
          let (file', found) = find_of_view path st.next.files (present path (ground arith) gone) in
          let st₁ : ImportRun = record st {
            next = record (st.next) { files = remove_file path st.next.files };
            removed = st.removed ++ path ∷ [];
          } in
          let (st', run, frozen, unique, views) =
            remove_missing_lem listed known st₁ uk.1 (remove_file-UniquePaths path st.next.files up)
              (λ q k l.
                ground (
                  arith,
                  view-remove_file path st.next.files q,
                  present q (ground arith) l,
                  uk.0,
                )) in
          (
            st',
            ground (arith, run),
            frozen,
            unique,
            λ q. ground (arith, views q, view-remove_file path st.next.files q),
          )
    ]
