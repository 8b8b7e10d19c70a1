-- ===== src/StateManager/Views.antt =====
-- The contents that the states of a project and the table of contents give to a path.
use gpt_pilot.Prelude.{
  String, ◌≡◌, refl, sym, Option, none, some, List, [], ◌∷◌, ◌==◌, string_eq, arith, if◌then◌else◌,
  Option-cases, find?, inl, inr, true,
}
use gpt_pilot.Prelude.Dict.{Dict, lookup, insert, is_some, lookup-insert}
use gpt_pilot.Records.{File, FileContent}
use gpt_pilot.ProjectState.{find_file, store_file}
use gpt_pilot.ProjectState.Files.{UniquePaths, find_file-store_file}
use gpt_pilot.StateManager.{store, known_files_from, known_files, read_or_raise, ok}
use gpt_pilot.Vfs.{FileSystem}

abbrev pub content_of : Option File → Option String
content_of none = none
content_of (some file) = some file.content.content

-- The content that a list of files has at a path.
unfoldable pub view : List File → String → Option String
view files q = content_of (find_file q files)

pub view-store_file :
    (path : String) (content : FileContent) (files : List File) (q : String)
    → view (store_file path content files) q
      ≡ (if q == path then some content.content else view files q)
unfolding view
view-store_file path content files q = ground (arith, find_file-store_file q path content files)

lookup-known_files_from :
    (files : List File) (known : Dict File) (q : String)
    → UniquePaths files
    → lookup q (known_files_from files known)
      ≡ (if is_some (find_file q files) then find_file q files else lookup q known)
unfolding known_files_from find_file find?
lookup-known_files_from [] known q u = refl
lookup-known_files_from (f ∷ files) known q u =
    ground (
      arith,
      lookup-known_files_from files (insert f.path f known) q,
      lookup-insert q f.path f known,
    )

pub lookup-known_files :
    (files : List File) (q : String)
    → UniquePaths files
    → lookup q (known_files files) ≡ find_file q files
unfolding known_files lookup
lookup-known_files files q u = ground (arith, lookup-known_files_from files [] q u)

-- A dict has one entry for a key.
abbrev pub UniqueKeys : Dict File → Type 0
UniqueKeys [] = Unit
UniqueKeys ((k, _) ∷ d) = (lookup k d ≡ none) × UniqueKeys d

insert-UniqueKeys :
    (k : String) (f : File) (d : Dict File) → UniqueKeys d → UniqueKeys (insert k f d)
unfolding insert lookup
insert-UniqueKeys k f [] u = (refl, tt)
insert-UniqueKeys k f ((j, g) ∷ d) u =
    ground (arith, insert-UniqueKeys k f d, lookup-insert j k f d)

known_files_from-UniqueKeys :
    (files : List File) (known : Dict File)
    → UniqueKeys known
    → UniqueKeys (known_files_from files known)
unfolding known_files_from
known_files_from-UniqueKeys [] known u = u
known_files_from-UniqueKeys (f ∷ files) known u =
    known_files_from-UniqueKeys files (insert f.path f known) (insert-UniqueKeys f.path f known u)

pub known_files-UniqueKeys : (files : List File) → UniqueKeys (known_files files)
unfolding known_files
known_files-UniqueKeys files = known_files_from-UniqueKeys files [] tt

-- Every row of the table of contents stands under the hash of its content.
abbrev pub IsConsistent : (String → String) → Dict String → Type 0
IsConsistent hash_string table = (h c : String) → lookup h table ≡ some c → h ≡ hash_string c

module _ (hash_string : String → String)
    (injective : (a b : String) → hash_string a ≡ hash_string b → a ≡ b) where
  pub content-store :
      (table : Dict String) (c : String)
      → IsConsistent hash_string table
      → ((store table (hash_string c) c).0.content ≡ c)
        × IsConsistent hash_string (store table (hash_string c) c).1
  unfolding store
  content-store table c h = elim (Option-cases (lookup (hash_string c) table)) [
    | inl absent ↦
        rw (absent, store)
          (refl, λ k c' p. ground (arith, lookup-insert k (hash_string c) c table, h k c'))
    | inr (old, found) ↦ rw (found, store) (sym (injective c old (h _ old found)), h)
  ]

module _ (fs : FileSystem) where
  open fs use {Disk, read, list, visible, contains-list}

  -- The content that the program sees on the disk.
  abbrev pub disk_view : Disk → String → Option String
  disk_view d q = if visible d q then read d q else none

  pub read_or_raise-some :
      (d : Disk) (path c : String) → read d path ≡ some c → read_or_raise fs d path ≡ ok c
  unfolding read_or_raise
  read_or_raise-some d path c found = rw (found, read_or_raise)

pub some_of_is_some : (o : Option String) → is_some o ≡ true → (c : String) × (o ≡ some c)
some_of_is_some none h = absurd (ground arith)
some_of_is_some (some c) h = (c, refl)
