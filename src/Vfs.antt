-- ===== src/Vfs.antt =====
-- core/disk/vfs.py: what the rest of the program may rely on in a VirtualFileSystem, as a record of
-- operations and laws, and MemoryVFS, which meets it. `read` gives `none` where the source raises
-- FileNotFoundError.
pub mod Memory
use gpt_pilot.Prelude.{
  String, ◌≡◌, Bool, true, false, not, ◌&&◌, Option, none, some, List, contains, ◌==◌, string_eq,
  if◌then◌else◌,
}
use gpt_pilot.Prelude.Dict.{is_some}

-- A path is written in the way of the listing if it is `canonical` of itself: paths with the same
-- canonical path name the same file. `text` is what is read of a text that was saved, where the line
-- breaks of the platform are translated. What the listing shows may depend on the path and on the
-- file, and a path that the ignore list matches is not removed either.
pub record FileSystem : Type 1 where
  pub Disk : Type 0
  pub read : Disk → String → Option String
  pub save : Disk → String → String → Disk
  pub remove : Disk → String → Disk
  pub list : Disk → List String
  pub canonical : String → String
  pub text : String → String
  pub ignored : String → Bool
  pub visible : Disk → String → Bool
  pub read-save :
      (d : Disk) (p content q : String)
      → read (save d p content) q
        ≡ (if canonical q == canonical p then some (text content) else read d q)
  pub read-remove :
      (d : Disk) (p q : String)
      → read (remove d p) q
        ≡ (if canonical q == canonical p && not (ignored p) then none else read d q)
  pub contains-list :
      (d : Disk) (p : String) → contains (list d) p ≡ (visible d p && is_some (read d p))
  -- The listing has each file under its canonical path, and no path that is ignored.
  pub canonical-visible : (d : Disk) (p : String) → visible d p ≡ true → canonical p ≡ p
  pub ignored-visible : (d : Disk) (p : String) → visible d p ≡ true → ignored p ≡ false
  -- A file is shown or not whatever happens to the others.
  pub visible-save :
      (d : Disk) (p content q : String)
      → (canonical q == canonical p) ≡ false
      → visible (save d p content) q ≡ visible d q
  pub visible-remove :
      (d : Disk) (p q : String)
      → (canonical q == canonical p) ≡ false
      → visible (remove d p) q ≡ visible d q
