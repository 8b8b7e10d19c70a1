-- ===== src/Vfs/Memory.antt =====
-- class MemoryVFS of core/disk/vfs.py, with the methods that it inherits from VirtualFileSystem.
pub mod Laws
use Prim.Native.Char.{code}
use Prim.Native.String
use text.Mathlib.Text.{starts_with}
use gpt_pilot.Prelude.{
  ℕ, String, ◌≡◌, refl, Bool, true, false, not, ◌&&◌, ◌||◌, Option, none, some, List, [], ◌∷◌, ◌==◌,
  string_eq, nat_eq, ltb, contains, select, arith, if◌then◌else◌,
}
use gpt_pilot.Prelude.Dict.{
  Dict, keys, lookup, insert, erase, is_some, lookup-insert, lookup-erase, contains-keys,
}
use gpt_pilot.Result.{Result, ok, raise, file_not_found}

pub record MemoryVfs : Type 0 where
  pub files : Dict String

unfoldable pub new : MemoryVfs
new = record { files = [] }

unfoldable pub save : MemoryVfs → String → String → MemoryVfs
save d path content = record { files = insert path content d.files }

unfoldable pub read : MemoryVfs → String → Result String
read d path = elim (lookup path d.files) [
  | some content ↦ ok content
  | none ↦ raise (file_not_found path)
]

-- A path that is not there is logged, and nothing changes.
unfoldable pub remove : MemoryVfs → String → MemoryVfs
remove d path = record { files = erase path d.files }

unfoldable pub get_full_path : String → String
get_full_path path = String.◌++◌ "/" path

-- Python's order on texts: by code points, the shorter first.
unfoldable pub str_leb : String → String → Bool
str_leb String.[] t = true
str_leb (String.◌∷◌ c s) String.[] = false
str_leb (String.◌∷◌ c s) (String.◌∷◌ d t) =
    let rest = str_leb s t in if code c == code d then rest else ltb (code c) (code d)

insert_sorted : String → List String → List String
insert_sorted x [] = x ∷ []
insert_sorted x (y ∷ ys) =
    let rest = insert_sorted x ys in if str_leb x y then x ∷ y ∷ ys else y ∷ rest

-- `sorted`
unfoldable pub sort : List String → List String
unfolding insert_sorted str_leb
sort [] = []
sort (x ∷ xs) = insert_sorted x (sort xs)

unfoldable pub ends_with_slash : String → Bool
ends_with_slash String.[] = false
ends_with_slash (String.◌∷◌ c String.[]) = code c == b'/'
ends_with_slash (String.◌∷◌ c s) = ends_with_slash s

unfoldable pub filter_by_prefix : List String → String → List String
filter_by_prefix files prefix =
    let dir = if ends_with_slash prefix then prefix else String.◌++◌ prefix "/" in
    select (λ f. starts_with f dir) files

-- `None` and the empty prefix filter nothing.
unfoldable pub list : MemoryVfs → Option String → List String
unfolding sort filter_by_prefix
list d none = sort (keys d.files)
list d (some prefix) =
    if prefix == "" then sort (keys d.files) else filter_by_prefix (sort (keys d.files)) prefix
