-- ===== src/Application/DeleteAccount.antt =====
-- backend/src/application/delete_account.rs: a user and all their data are erased.
pub mod Erased
use ai_agent_boilerplate.Exec.{◌>>=◌, ◌>>◌}
use ai_agent_boilerplate.Domain.{Uuid}
use ai_agent_boilerplate.Ports.{
  Port, UserRepository, JobRepository, RecurringSearchRepository, RefreshTokenRepository,
  NotificationChannelRepository, DocumentRepository,
}

module _ {S : Type 0} (users : UserRepository S) (jobs : JobRepository S)
    (recurring : RecurringSearchRepository S) (refresh_tokens : RefreshTokenRepository S)
    (channels : NotificationChannelRepository S) (documents : DocumentRepository S) where
  -- Children first, the user last.
  unfoldable pub execute : Uuid → Port S Unit
  execute user_id = do
    recurring.delete_all_for_user user_id
    jobs.delete_all_for_user user_id
    refresh_tokens.delete_all_for_user user_id
    channels.delete_all_for_user user_id
    documents.delete_all_for_user user_id
    users.delete user_id
