-- ===== src/Accounts/Durable.antt =====
-- infrastructure/config/in-memory-account.repository.ts: what is in memory is what is in the file, but for what was
-- observed and could not be written, and two accounts never share an id.
use messaging_gateway.Prelude.{
  if◌then◌else◌, is_some, String, Option, none, some, Bool, true, false, not, List, [], ◌∷◌, ◌++◌,
  ◌≡◌, arith, any, find, filter, Option-cases, inl, inr,
}
use messaging_gateway.Accounts.{ChannelAccount, Partial, with_changes}
use messaging_gateway.Accounts.Repository.{
  Repository, observe, Reply, returns, has_id, commit, save, replace, update, remove,
}
use messaging_gateway.Accounts.Written.{marks_after}

abbrev pub is_refused : {A : Type 0} → Reply A → Bool
is_refused (returns a) = false
is_refused _ = true

-- What an operator, the API or the connections may ask of the repository.
pub data Command : Type 0 where
  to_save : ChannelAccount → Command
  to_update : String → Partial → Command
  to_remove : String → Command
  to_observe : String → (ChannelAccount → Option Partial) → Command

-- The repository after a command, whose write succeeds or not, and whether it was refused.
unfoldable pub perform : Repository → Bool → Command → Repository × Bool
perform r wrote (to_save a) = let (r', reply) = save r wrote a in (r', is_refused reply)
perform r wrote (to_update id change) =
    let (r', reply) = update r wrote id change in (r', is_refused reply)
perform r wrote (to_remove id) = let (r', reply) = remove r wrote id in (r', is_refused reply)
perform r wrote (to_observe id change) = ((observe r wrote id change).0, false)

unfoldable pub perform_all : Repository → List (Bool × Command) → Repository
perform_all r [] = r
perform_all r ((wrote, c) ∷ commands) = perform_all (perform r wrote c).0 commands

abbrev is_change : Option ChannelAccount → (ChannelAccount → Option Partial) → Bool
is_change none change = false
is_change (some a) change = is_some (change a)

-- A command changes the accounts if a new one has a free id, and another one has an account of its id, of which an
-- observation makes something.
abbrev changes_any : Repository → Command → Bool
changes_any r (to_save a) = not (any (has_id a.id) r.accounts)
changes_any r (to_update id change) = any (has_id id) r.accounts
changes_any r (to_remove id) = any (has_id id) r.accounts
changes_any r (to_observe id change) = is_change (find (has_id id) r.accounts) change

abbrev noted : Command → List String → List String
noted (to_observe id change) marked = id ∷ marked
noted _ marked = marked

abbrev marks : Repository → Bool → Command → List String → List String
marks r wrote c marked = if changes_any r c then marks_after wrote (noted c marked) else marked

-- The accounts of which an observation could not be written, since the last write that went well.
unfoldable pub marked_by : List String → Repository → List (Bool × Command) → List String
marked_by marked r [] = marked
marked_by marked r ((wrote, c) ∷ commands) =
    marked_by (marks r wrote c marked) (perform r wrote c).0 commands

commit-refused :
    {A : Type 0} (r : Repository) (wrote : Bool) (accounts : List ChannelAccount) (result : A)
    → is_refused (commit r wrote accounts result).1 ≡ true
    → (commit r wrote accounts result).0 ≡ r
unfolding commit
commit-refused r wrote accounts result h = ground arith

-- A change that is refused, for its id or because the file could not be written, changes nothing.
pub perform_refused :
    (r : Repository) (wrote : Bool) (c : Command)
    → (perform r wrote c).1 ≡ true
    → (perform r wrote c).0 ≡ r
unfolding perform save update remove
perform_refused r wrote (to_save a) h =
    ground (arith, commit-refused r wrote (r.accounts ++ a ∷ []) a)
perform_refused r wrote (to_update id change) h =
    elim (Option-cases (find (has_id id) r.accounts)) [
      | inl missing ↦ ground (arith, missing)
      | inr (a, found) ↦ ground (
        arith,
        found,
        commit-refused r wrote (replace id (with_changes a change) r.accounts)
            (some (with_changes a change)),
      )
    ]
perform_refused r wrote (to_observe id change) h = absurd (cc h)
perform_refused r wrote (to_remove id) h =
    ground (arith, commit-refused r wrote (filter (λ a. not (has_id id a)) r.accounts) true)
