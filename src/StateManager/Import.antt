-- ===== src/StateManager/Import.antt =====
-- `StateManager.import_files`: it does not raise on a fresh next state, and afterwards the next
-- state has exactly the files of the workspace, with their contents.
use gpt_pilot.Prelude.{
  String, ◌≡◌, refl, true, false, Option, some, List, [], ◌∷◌, ◌++◌, string_eq, contains, arith,
  if◌then◌else◌, inl, inr, Bool-cases, ◌||◌, ==_refl, sym,
}
use gpt_pilot.Prelude.Dict.{Dict, lookup, is_some}
use gpt_pilot.Result.{ok}
use gpt_pilot.Records.{File}
use gpt_pilot.ProjectState.Files.{UniquePaths, store_file-UniquePaths, save_file_total}
use gpt_pilot.Vfs.{FileSystem}
use gpt_pilot.StateManager.Views.{
  IsConsistent, content_of, content-store, view-store_file, view, read_or_raise-some,
  some_of_is_some,
}
use gpt_pilot.StateManager.{store, is_unchanged, ImportRun, import_path, import_listed}
use gpt_pilot.ProjectState.{ProjectState}

-- The paths that have been imported after a loop over `paths`.
processed : List String → List String → List String
processed [] done = done
processed (path ∷ paths) done = processed paths (path ∷ done)

contains-processed :
    (paths done : List String) (q : String)
    → contains (processed paths done) q ≡ (contains paths q || contains done q)
unfolding processed
contains-processed [] done q = refl
contains-processed (path ∷ paths) done q = ground (arith, contains-processed paths (path ∷ done) q)

module _ (hash_string : String → String)
    (injective : (a b : String) → hash_string a ≡ hash_string b → a ≡ b) (fs : FileSystem)
    (d : fs.Disk) (known : Dict File) where
  open fs use {read, list, visible, contains-list}

  -- What holds while the listing is imported, when the paths of `done` have been.
  record Inv (done : List String) (st : ImportRun) : Type 0 where
    writable : st.next.has_next ≡ false
    unique : UniquePaths st.next.files
    consistent : IsConsistent hash_string st.table
    synced :
        (q : String)
        → view st.next.files q ≡ (if contains done q then read d q else content_of (lookup q known))

  content_of_unchanged :
      (o : Option File) (c : String) → is_unchanged o c ≡ true → content_of o ≡ some c
  unfolding is_unchanged
  content_of_unchanged o c h = ground arith

  import_path-Inv :
      (done : List String) (path c : String) (st : ImportRun)
      → read d path ≡ some c
      → Inv done st
      → (st' : ImportRun) × (import_path hash_string fs d known path st ≡ ok st')
        × Inv (path ∷ done) st'
  unfolding import_path
  import_path-Inv done path c st found inv =
      elim (Bool-cases (is_unchanged (lookup path known) c)) [
        | inl same ↦ (
          st,
          rw (read_or_raise-some fs d path c found) (rw same),
          record {
            writable = inv.writable;
            unique = inv.unique;
            consistent = inv.consistent;
            synced = λ q. ground (arith, inv.synced q, content_of_unchanged _ c same);
          },
        )
        | inr differs ↦
            let row = (store st.table (hash_string c) c).0 in
            let (next', saved, writable, files) =
              save_file_total st.next path row true inv.writable in
            let (content, consistent) =
              content-store hash_string injective st.table c inv.consistent in
            (
              record st {
                next = next';
                table = (store st.table (hash_string c) c).1;
                imported = st.imported ++ path ∷ [];
              },
              rw (read_or_raise-some fs d path c found) (rw differs (rw saved)),
              record {
                writable = writable;
                unique = rw files (store_file-UniquePaths path row st.next.files inv.unique);
                consistent = consistent;
                synced = λ q.
                    rw files
                      (ground (arith, inv.synced q, view-store_file path row st.next.files q));
              },
            )
      ]

  import_listed-Inv :
      (paths done : List String) (st : ImportRun)
      → ((p : String) → contains paths p ≡ true → is_some (read d p) ≡ true)
      → Inv done st
      → (st' : ImportRun) × (import_listed hash_string fs d known paths st ≡ ok st')
        × Inv (processed paths done) st'
  unfolding import_listed processed
  import_listed-Inv [] done st readable inv = (st, refl, inv)
  import_listed-Inv (path ∷ paths) done st readable inv =
      let (c, found) =
        some_of_is_some (read d path) (readable path (ground (arith, ==_refl path))) in
      let (st₁, run, inv₁) = import_path-Inv done path c st found inv in
      let (st₂, run₂, inv₂) =
        import_listed-Inv paths (path ∷ done) st₁ (λ p h. readable p (ground arith)) inv₁ in
      (st₂, rw run run₂, inv₂)

  -- The state of the run before the first round.
  import-Inv :
      (next : ProjectState) (table : Dict String)
      → next.has_next ≡ false
      → UniquePaths next.files
      → IsConsistent hash_string table
      → ((q : String) → content_of (lookup q known) ≡ view next.files q)
      → Inv [] (record { next = next; table = table; imported = []; removed = [] })
  import-Inv next table writable unique consistent same = record {
    writable = writable;
    unique = unique;
    consistent = consistent;
    synced = λ q. sym (same q);
  }

  -- The loop over the listing does not raise, and leaves at every listed path the content on disk.
  pub import_listed_lem :
      (next : ProjectState) (table : Dict String)
      → next.has_next ≡ false
      → UniquePaths next.files
      → IsConsistent hash_string table
      → ((q : String) → content_of (lookup q known) ≡ view next.files q)
      → (st : ImportRun) × (import_listed hash_string fs d known
            (list d)
            (record { next = next; table = table; imported = []; removed = [] })
          ≡ ok st)
        × (st.next.has_next ≡ false)
        × UniquePaths st.next.files
        × ((q : String)
            → view st.next.files q
              ≡ (if contains (list d) q then read d q else content_of (lookup q known)))
  import_listed_lem next table writable unique consistent same =
      let (st, run, inv) =
        import_listed-Inv (list d) [] _ (λ p h. ground (arith, contains-list d p))
          (import-Inv next table writable unique consistent same) in
      (
        st,
        run,
        inv.writable,
        inv.unique,
        λ q. ground (arith, inv.synced q, contains-processed (list d) [] q),
      )
