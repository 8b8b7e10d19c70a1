-- ===== src/Proc/Exits.antt =====
-- The watcher of core/proc/process_manager.py tells the exit handler of each process at most once.
use gpt_pilot.Prelude.{
  ℕ, ◌≡◌, refl, String, Bool, true, false, not, ◌&&◌, List, [], ◌∷◌, map, contains, contains-append,
  string_eq, arith, ap, subst,
}
use gpt_pilot.Prelude.Dict.{Dict, keys, insert, erase}
use gpt_pilot.Prelude.Distinct.{
  IsDistinct, IsDistinct-append, IsDistinct-keys-insert, IsDistinct-keys-erase,
}
use mathlib.Core.Option.{some-injective}
use gpt_pilot.Prelude.Maybe.{>>=-eq-some}
use gpt_pilot.Proc.{System, LocalProcess, read_output, is_running, nonblock_read_timeout}
use gpt_pilot.Proc.Watching.{
  Watcher, WatcherStep, WatcherSteps, not_complete, put_output, watch, table, after_read,
}

abbrev ids : List LocalProcess → List String
ids ps = map (λ (p : LocalProcess). p.id) ps

abbrev pub IsKeyed : Dict LocalProcess → Type 0
IsKeyed [] = Unit
IsKeyed ((id, p) ∷ d) = (p.id ≡ id) × IsKeyed d

-- The exits that were told are of processes that are complete, and no process of the round is.
pub record IsConsistent (s : Watcher) : Type 0 where
  pub keyed : IsKeyed (table s)
  pub keys_distinct : IsDistinct (keys (table s))
  pub procs_distinct : IsDistinct (ids s.procs)
  pub procs_new :
      (id : String) → contains (ids s.procs) id ≡ true → contains s.complete_processes id ≡ false
  pub exits_distinct : IsDistinct s.manager.exits
  pub exits_complete :
      (id : String) → contains s.manager.exits id ≡ true → contains s.complete_processes id ≡ true

IsKeyed-insert : (p : LocalProcess) (d : Dict LocalProcess) → IsKeyed d → IsKeyed (insert p.id p d)
unfolding insert
IsKeyed-insert p [] keyed = (refl, tt)
IsKeyed-insert p (_ ∷ d) keyed = ground (arith, keyed.0, keyed.1, IsKeyed-insert p d keyed.1)

IsKeyed-erase : (id : String) (d : Dict LocalProcess) → IsKeyed d → IsKeyed (erase id d)
unfolding erase
IsKeyed-erase id [] keyed = tt
IsKeyed-erase id (_ ∷ d) keyed = ground (arith, keyed.0, keyed.1, IsKeyed-erase id d keyed.1)

IsKeyed-put_output :
    (p : LocalProcess) (d : Dict LocalProcess) → IsKeyed d → IsKeyed (put_output p d)
IsKeyed-put_output p [] keyed = tt
IsKeyed-put_output p (_ ∷ d) keyed =
    ground (arith, keyed.0, keyed.1, IsKeyed-put_output p d keyed.1)

keys-put_output : (p : LocalProcess) (d : Dict LocalProcess) → keys (put_output p d) ≡ keys d
keys-put_output p [] = refl
keys-put_output p (_ ∷ d) = ground (arith, keys-put_output p d)

contains-not_complete :
    (complete : List String) (d : Dict LocalProcess) (id : String)
    → IsKeyed d
    → contains (ids (not_complete complete d)) id
      ≡ (not (contains complete id) && contains (keys d) id)
contains-not_complete complete [] id keyed = ground arith
contains-not_complete complete ((k, p) ∷ d) id keyed =
    ground (arith, keyed.0, contains-not_complete complete d id keyed.1)

IsDistinct-not_complete :
    (complete : List String) (d : Dict LocalProcess)
    → IsKeyed d
    → IsDistinct (keys d)
    → IsDistinct (ids (not_complete complete d))
IsDistinct-not_complete complete [] keyed distinct = tt
IsDistinct-not_complete complete ((k, p) ∷ d) keyed distinct = ground (
  arith,
  keyed.0,
  distinct.0,
  contains-not_complete complete d k keyed.1,
  IsDistinct-not_complete complete d keyed.1 distinct.1,
)

-- The look at one process keeps the books.
after_read-IsConsistent :
    (running : Bool) (p q : LocalProcess) (out err : List ℕ) (procs : List LocalProcess)
    (s : Watcher)
    → s.procs ≡ p ∷ procs
    → IsConsistent s
    → IsConsistent (after_read running p q out err procs s)
after_read-IsConsistent true p q out err procs s e books = record {
  keyed = IsKeyed-put_output q (table s) books.keyed;
  keys_distinct = rw (keys-put_output q (table s)) books.keys_distinct;
  procs_distinct = (subst (λ l. IsDistinct (ids l)) e books.procs_distinct).1;
  procs_new = λ id here. books.procs_new id (rw (e) (ground (arith, here)));
  exits_distinct = books.exits_distinct;
  exits_complete = books.exits_complete;
}
after_read-IsConsistent false p q out err procs s e books = record {
  keyed = IsKeyed-put_output q (table s) books.keyed;
  keys_distinct = rw (keys-put_output q (table s)) books.keys_distinct;
  procs_distinct = distinct.1;
  procs_new = λ id here.
      ground
        (arith, contains-append s.complete_processes (p.id ∷ []) id, old id here, distinct.0, here);
  exits_distinct = ground (
    arith,
    IsDistinct-append s.manager.exits p.id books.exits_distinct untold,
    books.exits_distinct,
  );
  exits_complete = λ id told. ground (
    arith,
    told,
    contains-append s.manager.exits (p.id ∷ []) id,
    contains-append s.complete_processes (p.id ∷ []) id,
    books.exits_complete id,
  );
}
  where
    distinct : (contains (ids procs) p.id ≡ false) × IsDistinct (ids procs)
    distinct = subst (λ l. IsDistinct (ids l)) e books.procs_distinct

    old : (id : String) → contains (ids procs) id ≡ true → contains s.complete_processes id ≡ false
    old id here = books.procs_new id (rw (e) (ground (arith, here)))

    incomplete : contains s.complete_processes p.id ≡ false
    incomplete = books.procs_new p.id (rw (e) (ground arith))

    untold : contains s.manager.exits p.id ≡ false
    untold = ground (arith, books.exits_complete p.id, incomplete)

IsConsistent-step :
    (os : System) (reads : ℕ) (s t : Watcher)
    → WatcherStep os reads s t
    → IsConsistent s
    → IsConsistent t
unfolding watch
IsConsistent-step os reads s t (WatcherStep.starts p fresh) books = record {
  keyed = IsKeyed-insert p (table s) books.keyed;
  keys_distinct = IsDistinct-keys-insert p.id p (table s) books.keys_distinct;
  procs_distinct = books.procs_distinct;
  procs_new = books.procs_new;
  exits_distinct = books.exits_distinct;
  exits_complete = books.exits_complete;
}
IsConsistent-step os reads s t (WatcherStep.terminates id) books = record {
  keyed = IsKeyed-erase id (table s) books.keyed;
  keys_distinct = IsDistinct-keys-erase id (table s) books.keys_distinct;
  procs_distinct = books.procs_distinct;
  procs_new = books.procs_new;
  exits_distinct = books.exits_distinct;
  exits_complete = books.exits_complete;
}
IsConsistent-step os reads s t (WatcherStep.begins none_left) books = record {
  keyed = books.keyed;
  keys_distinct = books.keys_distinct;
  procs_distinct =
      IsDistinct-not_complete s.complete_processes (table s) books.keyed books.keys_distinct;
  procs_new = λ id here.
      ground (arith, here, contains-not_complete s.complete_processes (table s) id books.keyed);
  exits_distinct = books.exits_distinct;
  exits_complete = books.exits_complete;
}
IsConsistent-step os reads s t (WatcherStep.sees {p = p} {procs = procs} w w' e seen) books =
    let ((q, out, err, v), read, rest) =
      >>=-eq-some (read_output os reads nonblock_read_timeout p w) _ seen in
    subst (λ (u : Watcher). IsConsistent u) (ap (λ r. r.0) (some-injective _ _ rest))
      (after_read-IsConsistent (is_running os q v) p q out err procs s e books)

-- However the rounds of the watcher and the start and the removal of processes follow each other, the
-- books stay in order: no exit is told twice, an exit that was told is of a complete process, and no
-- process that the round has still to see is complete.
pub IsConsistent-steps :
    (os : System) (reads : ℕ) (s t : Watcher)
    → WatcherSteps os reads s t
    → IsConsistent s
    → IsConsistent t
IsConsistent-steps os reads s t WatcherSteps.stays books = books
IsConsistent-steps os reads s t (WatcherSteps.goes_on {t = u} step steps) books =
    IsConsistent-steps os reads u t steps (IsConsistent-step os reads s u step books)
