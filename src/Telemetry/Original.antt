-- ===== src/Telemetry/Original.antt =====
-- roadmap-telemetry.py `authorized_original`: an original item that the protected assignment names.
use fs_quint.Base.{[], ◌∷◌, ◌++◌}
use fs_quint.Base.Text.{Text, codes}
use fs_quint.Host.Value.{Fields}
use fs_quint.Telemetry.Machine.{Act, lift, ◌>>=◌}
use fs_quint.Telemetry.Host.{Env}
use fs_quint.Telemetry.Command.{run}
use fs_quint.Telemetry.Assignment.{assignments_path, revision_of, granted, github_answer}

module _ (env : Env) where
  unfoldable pub github : Text → Act Unit Fields
  unfolding run github_answer
  github endpoint = do
    p ← run env (codes "gh" ∷ codes "api" ∷ endpoint ∷ [])
    lift (github_answer env p)

  -- The file is read at the revision that the main branch has now.
  unfoldable pub authorized_original : Text → Text → Text → Act Unit Text
  unfolding github revision_of granted
  authorized_original feature item original = do
    ref ← github (codes "repos/FS-GG/.github/git/ref/heads/main")
    revision ← lift (revision_of ref)
    content ←
        github (
          codes "repos/FS-GG/.github/contents/"
          ++ (assignments_path ++ (codes "?ref=" ++ revision)))
    lift (granted env feature item original revision content)
