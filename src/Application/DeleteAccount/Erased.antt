-- ===== src/Application/DeleteAccount/Erased.antt =====
-- What an account deletion erases and what it spares, over the in-memory stack.
use ai_agent_boilerplate.Prelude.{
  ℕ, ◌≡◌, ◌≢◌, true, not, none, arith, ◌==◌, ==_iff, ==-refl, All, All-of, filter_passes,
}
use ai_agent_boilerplate.Map.{Map, get, retain, AllEntries}
use ai_agent_boilerplate.Map.Laws.{retain_passes, get-remove, retain-retain}
use ai_agent_boilerplate.Domain.{Uuid}
use ai_agent_boilerplate.InMemory.Jobs
use ai_agent_boilerplate.InMemory.Searches
use ai_agent_boilerplate.InMemory.Tokens
use ai_agent_boilerplate.InMemory.Channels
use ai_agent_boilerplate.InMemory.Documents
use ai_agent_boilerplate.InMemory.Documents.{Float32}
use ai_agent_boilerplate.InMemory.Users
use ai_agent_boilerplate.InMemory.World.{
  World, job_repository, search_repository, token_repository, user_repository, channel_repository,
  document_repository,
}
use ai_agent_boilerplate.Application.DeleteAccount.{execute}

-- No entry of the user.
abbrev HasNone : {V : Type 0} → (V → Uuid) → Uuid → Map V → Type 0
HasNone owner user_id m = AllEntries (λ _ v. not (owner v == user_id) ≡ true) m

-- The entries of another user, in order.
abbrev share : {V : Type 0} → (V → Uuid) → Uuid → Map V → Map V
share owner user_id m = retain (λ _ v. owner v == user_id) m

share-retain :
    {V : Type 0} (owner : V → Uuid) (user_id other : Uuid) (m : Map V)
    → user_id ≢ other
    → share owner other (retain (λ _ v. not (owner v == user_id)) m) ≡ share owner other m
share-retain owner user_id other m ne =
    retain-retain _ _ m (λ k v h. ground (arith, ==_iff (owner v) other, ==_iff (owner v) user_id))

module _ {X : Type 0} (add_f64 : ℕ → ℕ → ℕ) (f : Float32) where
  pub erase : Uuid → World X → World X
  erase user_id w =
      (execute user_repository (job_repository add_f64) search_repository token_repository
        channel_repository (document_repository f) user_id w).1

  -- Deleting an account leaves no account, job, saved search, token, channel, document or chunk
  -- of the user in any repository.
  pub erased :
      (user_id : Uuid) (w : World X)
      → let w' = erase user_id w in
        (get user_id w'.users ≡ none)
        × HasNone (λ j. j.user_id) user_id w'.jobs.jobs
        × HasNone (λ r. r.user_id) user_id w'.searches
        × HasNone (λ t. t.user_id) user_id w'.tokens
        × HasNone (λ c. c.user_id) user_id w'.channels
        × HasNone (λ d. d.user_id) user_id w'.documents.documents
        × All (λ c. not (c.user_id == user_id) ≡ true) w'.documents.chunks
  unfolding erase execute Jobs.delete_all_for_user Searches.delete_all_for_user
      Tokens.delete_all_for_user Channels.delete_all_for_user Documents.delete_all_for_user
      Users.delete
  erased user_id w = (
    rw get-remove (rw (==-refl user_id)),
    retain_passes _ w.jobs.jobs,
    retain_passes _ w.searches,
    retain_passes _ w.tokens,
    retain_passes _ w.channels,
    retain_passes _ w.documents.documents,
    filter_passes (λ c. not (c.user_id == user_id) ≡ true) (λ c. not (c.user_id == user_id))
        w.documents.chunks
        (All-of (λ c. not (c.user_id == user_id) ≡ true → not (c.user_id == user_id) ≡ true)
          (λ c h. h) w.documents.chunks),
  )

  -- Deleting an account leaves every other user their account, jobs, saved searches, tokens,
  -- channels and documents, in order.
  pub others_kept :
      (user_id other : Uuid) (w : World X)
      → user_id ≢ other
      → let w' = erase user_id w in
        (get other w'.users ≡ get other w.users)
        × (share (λ j. j.user_id) other w'.jobs.jobs ≡ share (λ j. j.user_id) other w.jobs.jobs)
        × (share (λ r. r.user_id) other w'.searches ≡ share (λ r. r.user_id) other w.searches)
        × (share (λ t. t.user_id) other w'.tokens ≡ share (λ t. t.user_id) other w.tokens)
        × (share (λ c. c.user_id) other w'.channels ≡ share (λ c. c.user_id) other w.channels)
        × (share (λ d. d.user_id) other w'.documents.documents
            ≡ share (λ d. d.user_id) other w.documents.documents)
  unfolding erase execute Jobs.delete_all_for_user Searches.delete_all_for_user
      Tokens.delete_all_for_user Channels.delete_all_for_user Documents.delete_all_for_user
      Users.delete
  others_kept user_id other w ne = (
    ground (arith, get-remove user_id other w.users, ==_iff user_id other),
    share-retain _ user_id other w.jobs.jobs ne,
    share-retain _ user_id other w.searches ne,
    share-retain _ user_id other w.tokens ne,
    share-retain _ user_id other w.channels ne,
    share-retain _ user_id other w.documents.documents ne,
  )
