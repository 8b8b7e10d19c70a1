-- ===== src/StateManager/Restore.antt =====
-- The two loops of `StateManager.restore_files`, with files whose paths are canonical.
use gpt_pilot.Prelude.{
  string_eq, String, ◌≡◌, refl, List, [], ◌∷◌, arith, if◌then◌else◌, not, none, contains, ◌&&◌,
  Option, some, ◌==◌, true, false, ==_refl,
}
use gpt_pilot.Prelude.Dict.{Dict, lookup, is_some}
use gpt_pilot.Records.{File}
use gpt_pilot.Vfs.{FileSystem}
use gpt_pilot.StateManager.{remove_unknown, save_known}
use gpt_pilot.StateManager.Views.{content_of, UniqueKeys}

module _ (fs : FileSystem) where
  open fs use {
    Disk, read, save, remove, visible, canonical, text, ignored, read-save, read-remove,
    visible-save, visible-remove,
  }

  -- What is read of a content that was saved.
  abbrev pub as_read : Option String → Option String
  as_read none = none
  as_read (some content) = some (text content)

  -- The paths of a dictionary are canonical.
  abbrev pub CanonicalKeys : Dict File → Type 0
  CanonicalKeys known = (p : String) → is_some (lookup p known) ≡ true → canonical p ≡ p

  -- The paths of a list can be removed as they are.
  abbrev pub Removable : List String → Type 0
  Removable paths = (p : String) → contains paths p ≡ true → (canonical p ≡ p) × (ignored p ≡ false)

  read-remove_canonical :
      (d : Disk) (p q : String)
      → canonical q ≡ q
      → canonical p ≡ p
      → ignored p ≡ false
      → read (remove d p) q ≡ (if q == p then none else read d q)
  read-remove_canonical d p q cq cp shown = ground (arith, read-remove d p q, cq, cp, shown)

  read-save_canonical :
      (d : Disk) (p content q : String)
      → canonical q ≡ q
      → canonical p ≡ p
      → read (save d p content) q ≡ (if q == p then some (text content) else read d q)
  read-save_canonical d p content q cq cp = ground (arith, read-save d p content q, cq, cp)

  pub read-remove_unknown :
      (known : Dict File) (paths : List String) (d : Disk) (q : String)
      → canonical q ≡ q
      → Removable paths
      → read (remove_unknown fs known paths d) q
        ≡ (if contains paths q && not (is_some (lookup q known)) then none else read d q)
  unfolding remove_unknown
  read-remove_unknown known [] d q cq removable = refl
  read-remove_unknown known (path ∷ paths) d q cq removable =
      let (cp, shown) = removable path (ground (arith, ==_refl path)) in
      ground (
        arith,
        read-remove_unknown known paths (if is_some (lookup path known) then d else remove d path) q
            cq (λ p h. removable p (ground arith)),
        read-remove_canonical d path q cq cp shown,
      )

  pub read-save_known :
      (known : Dict File) (d : Disk) (q : String)
      → canonical q ≡ q
      → CanonicalKeys known
      → UniqueKeys known
      → read (save_known fs known d) q
        ≡ (if is_some (lookup q known) then as_read (content_of (lookup q known)) else read d q)
  unfolding save_known lookup
  read-save_known [] d q cq keys u = refl
  read-save_known ((path, file) ∷ known) d q cq keys u =
      let cp = keys path (ground (arith, ==_refl path)) in
      ground (
        arith,
        read-save_known known (save d path file.content.content) q cq
            (λ p h. ground (arith, keys p, cp)) u.1,
        read-save_canonical d path file.content.content q cq cp,
      )

  -- A path that is not listed is shown after the removals if it was before.
  pub visible-remove_unknown :
      (known : Dict File) (paths : List String) (d : Disk) (q : String)
      → canonical q ≡ q
      → Removable paths
      → contains paths q ≡ false
      → visible (remove_unknown fs known paths d) q ≡ visible d q
  unfolding remove_unknown
  visible-remove_unknown known [] d q cq removable absent = refl
  visible-remove_unknown known (path ∷ paths) d q cq removable absent =
      let (cp, shown) = removable path (ground (arith, ==_refl path)) in
      ground (
        arith,
        visible-remove_unknown known paths
            (if is_some (lookup path known) then d else remove d path) q cq
            (λ p h. removable p (ground arith)) (ground arith),
        visible-remove d path q (ground (arith, cq, cp)),
      )

  -- A path that is not saved is shown after the others have been saved if it was before.
  pub visible-save_known :
      (known : Dict File) (d : Disk) (q : String)
      → canonical q ≡ q
      → CanonicalKeys known
      → lookup q known ≡ none
      → visible (save_known fs known d) q ≡ visible d q
  unfolding save_known lookup
  visible-save_known [] d q cq keys absent = refl
  visible-save_known ((path, file) ∷ known) d q cq keys absent =
      let cp = keys path (ground (arith, ==_refl path)) in
      ground (
        arith,
        visible-save_known known (save d path file.content.content) q cq
            (λ p h. ground (arith, keys p, cp)) (ground arith),
        visible-save d path file.content.content q (ground (arith, cq, cp)),
      )
