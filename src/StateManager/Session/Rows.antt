-- ===== src/StateManager/Session/Rows.antt =====
-- The queries of the session on the rows that its operations leave.
use gpt_pilot.Prelude.{
  ap, ◌∙◌, Option-cases, inl, inr, ℕ, suc, ◌≤◌, ◌<◌, ◌≡◌, refl, true, false, ◌&&◌, none, some, List,
  [], ◌∷◌, ◌++◌, ◌==◌, nat_eq, option_eq, select, find?, update_first, any, arith, ==_refl,
}
use gpt_pilot.ProjectState.{ProjectState, delete_after}
use gpt_pilot.StateManager.Session.{
  is_of_branch, get_last_state, get_state_at_step, store_row, overwrite,
}

-- The rows of the branch have step indices below a bound.
abbrev pub AllBelow : ℕ → ℕ → List ProjectState → Type 0
AllBelow branch_id bound [] = Unit
AllBelow branch_id bound (row ∷ rows) =
    (is_of_branch branch_id row ≡ true → row.step_index < bound) × AllBelow branch_id bound rows

-- No row has the id.
abbrev pub IsNewId : ℕ → List ProjectState → Type 0
IsNewId id [] = Unit
IsNewId id (row ∷ rows) = ((row.id == some id) ≡ false) × IsNewId id rows

-- The constraint of the table: no two rows of a branch have the same step index.
abbrev pub UniqueSteps : List ProjectState → Type 0
UniqueSteps [] = Unit
UniqueSteps (row ∷ rows) =
    (get_state_at_step row.branch_id row.step_index rows ≡ none) × UniqueSteps rows

pub get_last_state-append :
    (rows : List ProjectState) (row : ProjectState)
    → AllBelow row.branch_id row.step_index rows
    → get_last_state row.branch_id (rows ++ row ∷ []) ≡ some row
unfolding get_last_state is_of_branch
get_last_state-append [] row below = ground (arith, ==_refl row.branch_id)
get_last_state-append (r ∷ rows) row below =
    ground (arith, below.0, get_last_state-append rows row below.1)

AllBelow-none :
    (branch_id bound : ℕ) (rows : List ProjectState)
    → get_last_state branch_id rows ≡ none
    → AllBelow branch_id bound rows
unfolding get_last_state is_of_branch
AllBelow-none branch_id bound [] missing = tt
AllBelow-none branch_id bound (r ∷ rows) missing =
    ground (arith, missing, AllBelow-none branch_id bound rows)

pub AllBelow-weaken :
    (branch_id low high : ℕ) (rows : List ProjectState)
    → low ≤ high
    → AllBelow branch_id low rows
    → AllBelow branch_id high rows
AllBelow-weaken branch_id low high [] le below = tt
AllBelow-weaken branch_id low high (r ∷ rows) le below =
    ((λ h. omega (arith, below.0 h, le)), AllBelow-weaken branch_id low high rows le below.1)

-- The last state is of the branch, and no row of the branch comes after it.
pub get_last_state_lem :
    (branch_id : ℕ) (rows : List ProjectState) (last : ProjectState)
    → get_last_state branch_id rows ≡ some last
    → (last.branch_id ≡ branch_id) × AllBelow branch_id (suc last.step_index) rows
unfolding get_last_state is_of_branch
get_last_state_lem branch_id [] last found = absurd (ground (arith, found))
get_last_state_lem branch_id (r ∷ rows) last found =
    elim (Option-cases (get_last_state branch_id rows)) [
      | inl empty ↦
          ground (arith, found, empty, AllBelow-none branch_id (suc last.step_index) rows empty)
      | inr (t, rest) ↦
          let (branch, below) = get_last_state_lem branch_id rows t rest in
          ground (
            arith,
            found,
            rest,
            branch,
            below,
            AllBelow-weaken branch_id (suc t.step_index) (suc last.step_index) rows,
          )
    ]

pub AllBelow-delete_after :
    (state : ProjectState) (rows : List ProjectState)
    → AllBelow state.branch_id (suc state.step_index) (delete_after state rows)
unfolding delete_after select is_of_branch
AllBelow-delete_after state [] = tt
AllBelow-delete_after state (r ∷ rows) = ground (arith, AllBelow-delete_after state rows)

pub get_state_at_step-append :
    (branch_id step_index : ℕ) (rows : List ProjectState) (row : ProjectState)
    → get_state_at_step branch_id step_index rows ≡ none
    → (is_of_branch branch_id row && row.step_index == step_index) ≡ false
    → get_state_at_step branch_id step_index (rows ++ row ∷ []) ≡ none
unfolding get_state_at_step find? is_of_branch
get_state_at_step-append branch_id step_index [] row missing other = ground (arith, other)
get_state_at_step-append branch_id step_index (r ∷ rows) row missing other =
    ground (arith, missing, get_state_at_step-append branch_id step_index rows row, other)

pub UniqueSteps-append :
    (rows : List ProjectState) (row : ProjectState)
    → UniqueSteps rows
    → AllBelow row.branch_id row.step_index rows
    → UniqueSteps (rows ++ row ∷ [])
unfolding is_of_branch get_state_at_step find?
UniqueSteps-append [] row unique below = (refl, tt)
UniqueSteps-append (r ∷ rows) row unique below = (
  get_state_at_step-append r.branch_id r.step_index rows row unique.0 (ground (arith, below.0)),
  UniqueSteps-append rows row unique.1 below.1,
)

get_state_at_step-delete_after :
    (state : ProjectState) (branch_id step_index : ℕ) (rows : List ProjectState)
    → get_state_at_step branch_id step_index rows ≡ none
    → get_state_at_step branch_id step_index (delete_after state rows) ≡ none
unfolding get_state_at_step find? is_of_branch delete_after select
get_state_at_step-delete_after state branch_id step_index [] missing = refl
get_state_at_step-delete_after state branch_id step_index (r ∷ rows) missing =
    ground (arith, missing, get_state_at_step-delete_after state branch_id step_index rows)

pub UniqueSteps-delete_after :
    (state : ProjectState) (rows : List ProjectState)
    → UniqueSteps rows
    → UniqueSteps (delete_after state rows)
unfolding delete_after select
UniqueSteps-delete_after state [] unique = tt
UniqueSteps-delete_after state (r ∷ rows) unique = ground (
  arith,
  UniqueSteps-delete_after state rows unique.1,
  get_state_at_step-delete_after state r.branch_id r.step_index rows unique.0,
)

any-new :
    (id : ℕ) (rows : List ProjectState)
    → IsNewId id rows
    → any (λ (row : ProjectState). row.id == some id) rows ≡ false
unfolding any
any-new id [] new = refl
any-new id (r ∷ rows) new = ground (arith, new.0, any-new id rows new.1)

any-placed :
    (id : ℕ) (rows : List ProjectState) (placed : ProjectState)
    → (placed.id == some id) ≡ true
    → any (λ (row : ProjectState). row.id == some id) (rows ++ placed ∷ []) ≡ true
unfolding any
any-placed id [] placed a = ground (arith, a)
any-placed id (r ∷ rows) placed a = ground (arith, any-placed id rows placed a)

update_first-placed :
    (id : ℕ) (rows : List ProjectState) (placed state : ProjectState)
    → IsNewId id rows
    → (placed.id == some id) ≡ true
    → update_first (λ (row : ProjectState). row.id == some id) (λ row. state) (rows ++ placed ∷ [])
      ≡ rows ++ state ∷ []
unfolding update_first
update_first-placed id [] placed state new a = ground (arith, a)
update_first-placed id (r ∷ rows) placed state new a =
    ground (arith, new.0, update_first-placed id rows placed state new.1 a)

-- A row that is written over stands in its old place, which was the last.
pub store_row-placed :
    (id : ℕ) (rows : List ProjectState) (placed state : ProjectState)
    → IsNewId id rows
    → placed.id ≡ some id
    → state.id ≡ some id
    → store_row state (rows ++ placed ∷ []) ≡ rows ++ state ∷ []
unfolding store_row overwrite
store_row-placed id rows placed state new a b =
    let h : (placed.id == some id) ≡ true = rw a (==_refl (some id)) in
    ap (λ i. overwrite i state (rows ++ placed ∷ [])) b
    ∙ ground (arith, any-placed id rows placed h, update_first-placed id rows placed state new h)

pub store_row-new :
    (id : ℕ) (rows : List ProjectState) (state : ProjectState)
    → IsNewId id rows
    → state.id ≡ some id
    → store_row state rows ≡ rows ++ state ∷ []
unfolding store_row overwrite
store_row-new id rows state new b =
    ap (λ i. overwrite i state rows) b ∙ ground (arith, any-new id rows new)

get_state_at_step-prefix :
    (branch_id step_index : ℕ) (rows : List ProjectState) (row : ProjectState)
    → get_state_at_step branch_id step_index (rows ++ row ∷ []) ≡ none
    → get_state_at_step branch_id step_index rows ≡ none
unfolding get_state_at_step find? is_of_branch
get_state_at_step-prefix branch_id step_index [] row missing = refl
get_state_at_step-prefix branch_id step_index (r ∷ rows) row missing =
    ground (arith, missing, get_state_at_step-prefix branch_id step_index rows row)

pub UniqueSteps-prefix :
    (rows : List ProjectState) (row : ProjectState)
    → UniqueSteps (rows ++ row ∷ [])
    → UniqueSteps rows
UniqueSteps-prefix [] row unique = tt
UniqueSteps-prefix (r ∷ rows) row unique = (
  get_state_at_step-prefix r.branch_id r.step_index rows row unique.0,
  UniqueSteps-prefix rows row unique.1,
)

pub AllBelow-append :
    (branch_id bound : ℕ) (rows : List ProjectState) (row : ProjectState)
    → AllBelow branch_id bound rows
    → row.step_index < bound
    → AllBelow branch_id bound (rows ++ row ∷ [])
AllBelow-append branch_id bound [] row below last = ((λ h. last), tt)
AllBelow-append branch_id bound (r ∷ rows) row below last =
    (below.0, AllBelow-append branch_id bound rows row below.1 last)
