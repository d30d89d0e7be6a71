-- ===== src/Usage/Pages.antt =====
-- `page`: at most ten requests, each with the cursor that the one before gave.
pub mod Bounds
use fs_quint.Base.{ℕ, zero, suc, Option, none, some, List, []}
use fs_quint.Base.Text.{Text}
use fs_quint.Host.Value.{Fields}
use fs_quint.Usage.{host_unavailable}
use fs_quint.Usage.Rows.{paged, read_page}
use fs_quint.Usage.Server.{Codex, Ask, pure, raise, lift, request, ◌>>=◌}

module _ (codex : Codex) (method : Text) (params : Fields) where
  -- The requests that are left, the id of the next one, its cursor, and the rows so far.
  unfoldable pub pages : ℕ → ℕ → Option Text → List Fields → Ask (List Fields)
  unfolding paged read_page request
  pages zero id cursor rows = raise host_unavailable
  pages (suc left) id cursor rows = do
    result ← request codex id method (paged params cursor)
    (total, next) ← lift (read_page cursor rows result)
    elim next [ none ↦ pure total | some c ↦ pages left (suc id) (some c) total ]

  unfoldable pub page : ℕ → Ask (List Fields)
  unfolding pages
  page id = pages 10 id none []
