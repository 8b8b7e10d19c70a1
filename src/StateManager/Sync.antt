-- ===== src/StateManager/Sync.antt =====
-- The state of the project and the workspace agree after `import_files` and after `restore_files`,
-- and `get_modified_files` lists exactly the paths where they differ.
use gpt_pilot.Prelude.{
  string_eq, if◌then◌else◌, none, String, ◌≡◌, arith, false, ap, subst, sym, ◌∙◌, [], true,
  contains, Bool-cases, Option-cases, inl, inr, some,
}
use gpt_pilot.Vfs.{FileSystem}
use gpt_pilot.ProjectState.{ProjectState}
use gpt_pilot.StateManager.Views.{
  view, IsConsistent, content_of, lookup-known_files, known_files-UniqueKeys, disk_view,
}
use gpt_pilot.StateManager.{
  get_modified_files, restore_files, import_files, ImportRun, ok, known_files, remove_unknown,
}
use gpt_pilot.Prelude.Dict.{Dict, lookup, is_some}
use gpt_pilot.ProjectState.Files.{UniquePaths}
use gpt_pilot.StateManager.Import.{import_listed_lem}
use gpt_pilot.StateManager.Removal.{remove_missing_lem}
use gpt_pilot.StateManager.Modified.{get_modified_files_none}
use gpt_pilot.StateManager.Restore.{
  read-save_known, read-remove_unknown, visible-save_known, visible-remove_unknown, as_read,
  CanonicalKeys, Removable,
}

module _ (hash_string : String → String)
    (injective : (a b : String) → hash_string a ≡ hash_string b → a ≡ b) (fs : FileSystem) where
  open fs use {
    Disk, read, list, visible, contains-list, canonical, text, canonical-visible, ignored-visible,
  }

  -- Importing into a next state that has the files of the current one does not raise, and the next
  -- state then has at every path what the disk shows there: new and changed files with their new
  -- content, and no file that is gone or hidden.
  pub import_files_lem :
      (d : Disk) (current next : ProjectState) (table : Dict String)
      → next.has_next ≡ false
      → UniquePaths current.files
      → next.files ≡ current.files
      → IsConsistent hash_string table
      → (st : ImportRun) × (import_files hash_string fs d current next table ≡ ok st)
        × (st.next.has_next ≡ false)
        × UniquePaths st.next.files
        × ((q : String) → view st.next.files q ≡ disk_view fs d q)
  unfolding import_files
  import_files_lem d current next table writable unique same consistent =
      let known = known_files current.files in
      let known_view : (q : String) → content_of (lookup q known) ≡ view next.files q =
        λ q. unfold view in rw same (ap content_of (lookup-known_files current.files q unique)) in
      let (st, run, writable', unique', views) =
        import_listed_lem hash_string injective fs d known next table writable
          (subst UniquePaths (sym same) unique) consistent known_view in
      let (st', run', frozen, unique'', views') =
        remove_missing_lem (list d) known st (known_files-UniqueKeys current.files) unique'
          (λ q k l. ground (arith, views q)) in
      (
        st',
        rw run run',
        frozen ∙ writable',
        unique'',
        λ q. ground (arith, views q, views' q, contains-list d q),
      )

  -- Right after the imported state has become the current one, nothing counts as modified.
  pub get_modified_files-import_files :
      (d : Disk) (current next : ProjectState) (table : Dict String)
      → next.has_next ≡ false
      → UniquePaths current.files
      → next.files ≡ current.files
      → IsConsistent hash_string table
      → (st : ImportRun) × (import_files hash_string fs d current next table ≡ ok st)
        × (get_modified_files fs d st.next ≡ ok [])
  get_modified_files-import_files d current next table writable unique same consistent =
      let (st, run, frozen, unique', views) =
        import_files_lem d current next table writable unique same consistent in
      (st, run, get_modified_files_none fs d st.next views)

  module _ (d : Disk) (current : ProjectState) (unique : UniquePaths current.files)
      (written_so : (p : String) → is_some (view current.files p) ≡ true → canonical p ≡ p) where
    known_files-CanonicalKeys : CanonicalKeys fs (known_files current.files)
    unfolding view
    known_files-CanonicalKeys p h =
        ground (arith, lookup-known_files current.files p unique, written_so p)

    list-Removable : Removable fs (list d)
    list-Removable p listed =
        let shown : visible d p ≡ true = ground (arith, contains-list d p) in
        (canonical-visible d p shown, ignored-visible d p shown)

    -- The project's paths being canonical, after the files are restored every file of the project
    -- has its content on the disk again, as the disk gives it back; a file that the disk showed and
    -- that is not the project's is gone; and every other canonical path reads as before.
    pub read-restore_files :
        (q : String)
        → canonical q ≡ q
        → read (restore_files fs current d) q ≡ (
            if is_some (view current.files q)
            then as_read fs (view current.files q)
            else if visible d q
            then none
            else read d q)
    unfolding restore_files view
    read-restore_files q cq =
        let known = known_files current.files in
        ground (
          arith,
          read-save_known fs known (remove_unknown fs known (list d) d) q cq
              known_files-CanonicalKeys (known_files-UniqueKeys current.files),
          read-remove_unknown fs known (list d) d q cq list-Removable,
          lookup-known_files current.files q unique,
          contains-list d q,
        )

    -- A path that neither the project nor the listing has is shown after the restoring if it was
    -- before.
    visible-restore_files :
        (q : String)
        → canonical q ≡ q
        → view current.files q ≡ none
        → contains (list d) q ≡ false
        → visible (restore_files fs current d) q ≡ visible d q
    unfolding restore_files view
    visible-restore_files q cq foreign unlisted =
        let known = known_files current.files in
        visible-save_known fs known (remove_unknown fs known (list d) d) q cq
          known_files-CanonicalKeys (ground (arith, lookup-known_files current.files q unique))
        ∙ visible-remove_unknown fs known (list d) d q cq list-Removable unlisted

    unseen :
        (q : String)
        → view current.files q ≡ none
        → visible (restore_files fs current d) q ≡ true
        → read (restore_files fs current d) q ≡ none
    unseen q foreign shown =
        let cq = canonical-visible (restore_files fs current d) q shown in
        elim (Bool-cases (contains (list d) q)) [
          | inl listed ↦ ground (arith, read-restore_files q cq, contains-list d q)
          | inr unlisted ↦ ground (
            arith,
            read-restore_files q cq,
            contains-list d q,
            visible-restore_files q cq foreign unlisted,
          )
        ]

    -- Restoring undoes what the user changed: nothing counts as modified afterwards, if the project's
    -- paths are canonical, the disk shows its files when they are restored, and it gives their
    -- contents back unchanged.
    pub get_modified_files-restore_files :
        ((q : String)
          → is_some (view current.files q) ≡ true
          → visible (restore_files fs current d) q ≡ true)
        → ((q content : String) → view current.files q ≡ some content → text content ≡ content)
        → get_modified_files fs (restore_files fs current d) current ≡ ok []
    get_modified_files-restore_files shown kept =
        get_modified_files_none fs (restore_files fs current d) current λ q.
          elim (Option-cases (view current.files q)) [
            | inl foreign ↦ ground (arith, unseen q foreign)
            | inr (content, found) ↦ ground (
              arith,
              read-restore_files q (written_so q (ground arith)),
              shown q,
              kept q content found,
            )
          ]
