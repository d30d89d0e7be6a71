-- ===== src/Tests/Repositories.antt =====
-- A checkout whose origin has the form of scp.
use fs_quint.Base.{◌≡◌, refl, pos, none, Option, []}
use fs_quint.Base.Text.{Text, codes}
use fs_quint.Host.{exited}
use fs_quint.Usage.{configuration, done, threw}
use fs_quint.Telemetry.Host.{Env}
use fs_quint.Telemetry.Repository.{Url, canonical_github_repository, workspace_repository}
use fs_quint.Telemetry.Repository.Canonical.{IsRepository, workspace-IsRepository}
use fs_quint.Tests.Telemetries.{host_with}

abbrev cloned : Env
cloned = host_with (exited (pos 0) (codes "git@GitHub.com:FS-GG/FsQuint.git\n") [])

abbrev no_url : Text → Option Url
no_url t = none

cloned_repository : (workspace_repository no_url cloned tt []).result ≡ done (codes "FS-GG/FsQuint")
unfolding workspace_repository
cloned_repository = refl

three_parts :
    canonical_github_repository no_url (codes "git@github.com:FS-GG/FsQuint/x")
    ≡ threw configuration
unfolding canonical_github_repository
three_parts = refl

workspace-IsRepository_example : IsRepository (codes "FS-GG/FsQuint")
workspace-IsRepository_example =
    workspace-IsRepository no_url cloned [] (codes "FS-GG/FsQuint") cloned_repository
