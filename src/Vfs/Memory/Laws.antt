-- ===== src/Vfs/Memory/Laws.antt =====
-- MemoryVFS keeps what is saved, lists exactly the files that it has, in order, and so is a
-- FileSystem that hides nothing.
use gpt_pilot.Prelude.{
  String, ◌≡◌, refl, true, false, ◌&&◌, ◌||◌, none, some, List, [], ◌∷◌, ◌==◌, string_eq, nat_eq,
  contains, arith, if◌then◌else◌, ◌∙◌, not,
}
use gpt_pilot.Prelude.Dict.{keys, lookup, is_some, lookup-insert, lookup-erase, contains-keys}
use gpt_pilot.Result.{ok, raise, file_not_found}
use gpt_pilot.Vfs.{FileSystem}
use gpt_pilot.Vfs.Memory.{MemoryVfs, save, read, remove, list, sort, insert_sorted, str_leb}

contains-insert_sorted :
    (x : String) (ys : List String) (p : String)
    → contains (insert_sorted x ys) p ≡ (p == x || contains ys p)
unfolding insert_sorted
contains-insert_sorted x [] p = refl
contains-insert_sorted x (y ∷ ys) p = ground (arith, contains-insert_sorted x ys p)

contains-sort : (xs : List String) (p : String) → contains (sort xs) p ≡ contains xs p
unfolding sort
contains-sort [] p = refl
contains-sort (x ∷ xs) p = ground (arith, contains-insert_sorted x (sort xs) p, contains-sort xs p)

-- Each text is at most the next one.
abbrev pub IsSorted : List String → Type 0
IsSorted [] = Unit
IsSorted (x ∷ []) = Unit
IsSorted (x ∷ y ∷ ys) = (str_leb x y ≡ true) × IsSorted (y ∷ ys)

str_leb_total : (s t : String) → str_leb s t ≡ false → str_leb t s ≡ true
unfolding str_leb
str_leb_total String.[] t h = absurd (ground arith)
str_leb_total (String.◌∷◌ c s) String.[] h = refl
str_leb_total (String.◌∷◌ c s) (String.◌∷◌ d t) h = ground (arith, str_leb_total s t)

insert_sorted-IsSorted :
    (x : String) (ys : List String) → IsSorted ys → IsSorted (insert_sorted x ys)
unfolding insert_sorted
insert_sorted-IsSorted x [] h = tt
insert_sorted-IsSorted x (y ∷ []) h = ground (arith, str_leb_total x y)
insert_sorted-IsSorted x (y ∷ z ∷ ys) h =
    ground (arith, str_leb_total x y, insert_sorted-IsSorted x (z ∷ ys))

sort-IsSorted : (xs : List String) → IsSorted (sort xs)
unfolding sort
sort-IsSorted [] = tt
sort-IsSorted (x ∷ xs) = insert_sorted-IsSorted x (sort xs) (sort-IsSorted xs)

-- A file that was saved is read back, and every other path reads as before.
pub read-save :
    (d : MemoryVfs) (p content q : String)
    → read (save d p content) q ≡ (if q == p then ok content else read d q)
unfolding read save
read-save d p content q = ground (arith, lookup-insert q p content d.files)

-- A file that was removed is not found, and every other path reads as before.
pub read-remove :
    (d : MemoryVfs) (p q : String)
    → read (remove d p) q ≡ (if q == p then raise (file_not_found q) else read d q)
unfolding read remove
read-remove d p q = ground (arith, lookup-erase q p d.files)

-- The listing without a prefix is in order, and it has a path exactly if the path can be read.
pub list_lem :
    (d : MemoryVfs)
    → IsSorted (list d none)
      × ((p : String) → contains (list d none) p ≡ is_some (lookup p d.files))
unfolding list
list_lem d =
    (sort-IsSorted (keys d.files), λ p. contains-sort (keys d.files) p ∙ contains-keys p d.files)

pub lookup-save :
    (d : MemoryVfs) (p content q : String)
    → lookup q (save d p content).files ≡ (if q == p then some content else lookup q d.files)
unfolding save
lookup-save d p content q = lookup-insert q p content d.files

pub lookup-remove :
    (d : MemoryVfs) (p q : String)
    → lookup q (remove d p).files ≡ (if q == p && not false then none else lookup q d.files)
unfolding remove
lookup-remove d p q = ground (arith, lookup-erase q p d.files)

abbrev pub file_system : FileSystem
file_system = record {
  Disk = MemoryVfs;
  read = λ d p. lookup p d.files;
  save = save;
  remove = remove;
  list = λ d. list d none;
  canonical = λ p. p;
  text = λ content. content;
  ignored = λ p. false;
  visible = λ d p. true;
  read-save = lookup-save;
  read-remove = lookup-remove;
  contains-list = λ d. (list_lem d).1;
  canonical-visible = λ d p shown. refl;
  ignored-visible = λ d p shown. refl;
  visible-save = λ d p content q other. refl;
  visible-remove = λ d p q other. refl;
}
