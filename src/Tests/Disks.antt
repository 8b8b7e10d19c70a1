-- ===== src/Tests/Disks.antt =====
-- Restoring files on a disk that translates line breaks, gives a path two spellings, and hides a file.
use gpt_pilot.Prelude.{
  String, ◌≡◌, refl, Bool, true, false, not, ◌&&◌, none, some, List, [], ◌∷◌, ◌==◌, string_eq,
  select, contains, if◌then◌else◌, arith, find?, ◌⊎◌, inl, inr, subst, sym, ◌∙◌,
}
use gpt_pilot.Prelude.Dict.{
  Dict, keys, lookup, insert, erase, is_some, lookup-insert, lookup-erase, contains-keys,
}
use gpt_pilot.Result.{ok}
use gpt_pilot.Records.{File}
use gpt_pilot.Vfs.{FileSystem}
use gpt_pilot.ProjectState.{ProjectState, find_file}
use gpt_pilot.ProjectState.Files.{UniquePaths}
use gpt_pilot.StateManager.{
  get_modified_files, restore_files, is_unchanged, known_files, read_or_raise,
}
use gpt_pilot.StateManager.Views.{view}
use gpt_pilot.StateManager.Sync.{read-restore_files, get_modified_files-restore_files}
use gpt_pilot.Tests.Fixtures.{working, file_a, file_b, content_of_text}

-- `./a.js` is another spelling of `a.js`.
abbrev canonical : String → String
canonical p = if p == "./a.js" then "a.js" else p

-- What is read of a text that was saved.
abbrev text : String → String
text content = if content == "old\r\n" then "old\n" else content

abbrev ignored : String → Bool
ignored p = p == ".env"

abbrev is_shown : String → Bool
is_shown p = canonical p == p && not (ignored p)

canonical_twice : (p : String) → canonical (canonical p) ≡ canonical p
unfolding string_eq
canonical_twice p = ground arith

contains-select :
    (p : String) (paths : List String)
    → contains (select is_shown paths) p ≡ (is_shown p && contains paths p)
unfolding select
contains-select p [] = ground arith
contains-select p (q ∷ paths) = ground (arith, contains-select p paths)

read-remove_lem :
    (d : Dict String) (p q : String)
    → lookup (canonical q) (if ignored p then d else erase (canonical p) d)
      ≡ (if canonical q == canonical p && not (ignored p) then none else lookup (canonical q) d)
read-remove_lem d p q = ground (arith, lookup-erase (canonical q) (canonical p) d)

canonical_of_shown : (p : String) → is_shown p ≡ true → canonical p ≡ p
canonical_of_shown p shown = ground (arith, shown)

not_ignored_of_shown : (p : String) → is_shown p ≡ true → ignored p ≡ false
not_ignored_of_shown p shown = ground (arith, shown)

contains-listing :
    (d : Dict String) (p : String)
    → contains (select is_shown (keys d)) p ≡ (is_shown p && is_some (lookup (canonical p) d))
contains-listing d p =
    ground (arith, contains-select p (keys d), contains-keys p d, canonical_of_shown p)

abbrev translating : FileSystem
translating = record {
  Disk = Dict String;
  read = λ d p. lookup (canonical p) d;
  save = λ d p content. insert (canonical p) (text content) d;
  remove = λ d p. if ignored p then d else erase (canonical p) d;
  list = λ d. select is_shown (keys d);
  canonical = canonical;
  text = text;
  ignored = ignored;
  visible = λ d p. is_shown p;
  read-save = λ d p content q. lookup-insert (canonical q) (canonical p) (text content) d;
  read-remove = read-remove_lem;
  contains-list = contains-listing;
  canonical-visible = λ d p shown. canonical_of_shown p shown;
  ignored-visible = λ d p shown. not_ignored_of_shown p shown;
  visible-save = λ d p content q other. refl;
  visible-remove = λ d p q other. refl;
}

-- `a.js` was changed, `c.js` is new, `b.js` is gone, and `.env` is hidden.
abbrev changed : Dict String
changed = ("a.js", "edited") ∷ ("c.js", "new") ∷ (".env", "KEY=1") ∷ []

-- The project with a file that has the line breaks of Windows.
abbrev with_line_break_file : File
with_line_break_file = record file_a { content = content_of_text "old\r\n" }

abbrev with_line_break : ProjectState
with_line_break = record working { files = with_line_break_file ∷ file_b ∷ [] }

with_line_break-UniquePaths : UniquePaths with_line_break.files
unfolding find_file find? string_eq
with_line_break-UniquePaths = (refl, (refl, tt))

working-UniquePaths : UniquePaths working.files
unfolding find_file find? string_eq
working-UniquePaths = (refl, (refl, tt))

one_of_two :
    (f g : File) (q : String) → is_some (view (f ∷ g ∷ []) q) ≡ true → (q ≡ f.path) ⊎ (q ≡ g.path)
unfolding view find_file find?
one_of_two f g q h = ground (arith, h)

content_of_two :
    (f g : File) (q content : String)
    → view (f ∷ g ∷ []) q ≡ some content
    → (content ≡ f.content.content) ⊎ (content ≡ g.content.content)
unfolding view find_file find?
content_of_two f g q content h = ground (arith, h)

-- What holds of the two paths holds of every path of the project.
at_both :
    (P : String → Type 0) (f : File) (q : String)
    → f.path ≡ "a.js"
    → is_some (view (f ∷ file_b ∷ []) q) ≡ true
    → P "a.js"
    → P "b.js"
    → P q
at_both P f q named h a b = elim (one_of_two f file_b q h) [
  | inl e ↦ subst P (sym (e ∙ named)) a
  | inr e ↦ subst P (sym e) b
]

kept_by_text : (q content : String) → view working.files q ≡ some content → text content ≡ content
unfolding string_eq
kept_by_text q content h = elim (content_of_two file_a file_b q content h) [
  | inl e ↦ subst (λ c. text c ≡ c) (sym e) refl
  | inr e ↦ subst (λ c. text c ≡ c) (sym e) refl
]

-- The content is restored with its line break translated.
read-restore_files_example :
    translating.read (restore_files translating with_line_break changed) "a.js" ≡ some "old\n"
unfolding view find_file find? string_eq
read-restore_files_example =
    read-restore_files (λ s. s) (λ a b h. h) translating changed with_line_break
      with_line_break-UniquePaths
      (λ p h. at_both (λ p. canonical p ≡ p) with_line_break_file p refl h refl refl) "a.js" refl

hidden_file_stays :
    translating.read (restore_files translating working changed) ".env" ≡ some "KEY=1"
unfolding view find_file find? string_eq lookup
hidden_file_stays =
    read-restore_files (λ s. s) (λ a b h. h) translating changed working working-UniquePaths
      (λ p h. at_both (λ p. canonical p ≡ p) file_a p refl h refl refl) ".env" refl

get_modified_files-restore_files_example :
    get_modified_files translating (restore_files translating working changed) working ≡ ok []
unfolding string_eq
get_modified_files-restore_files_example =
    get_modified_files-restore_files (λ s. s) (λ a b h. h) translating changed working
      working-UniquePaths (λ p h. at_both (λ p. canonical p ≡ p) file_a p refl h refl refl)
      (λ q h. at_both (λ q. is_shown q ≡ true) file_a q refl h refl refl) kept_by_text

-- A file whose text is read as another one counts as modified after it has been restored.
modified_by_the_disk :
    get_modified_files translating
      (restore_files translating with_line_break changed)
      with_line_break
    ≡ ok ("a.js" ∷ [])
unfolding restore_files get_modified_files select known_files insert string_eq lookup erase
    read_or_raise is_unchanged find_file find?
modified_by_the_disk = refl
