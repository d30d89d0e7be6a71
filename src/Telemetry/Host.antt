-- ===== src/Telemetry/Host.antt =====
-- The host of the telemetry scripts: `HostConfig`, and the answers of the system as functions of
-- the log, so that each may differ from call to call.
use fs_quint.Base.{ℕ, Bool, Option}
use fs_quint.Base.Text.{Text}
use fs_quint.Base.{List}
use fs_quint.Host.{Proc}
use fs_quint.Host.Value.{Json}
use fs_quint.Usage.{Fault}
use fs_quint.Usage.Server.{Codex}
use fs_quint.Telemetry.Machine.{Log}

-- Paths are texts.
pub record HostConfig : Type 0 where
  pub path : Text
  pub store_root : Text
  pub engine : Text
  pub repository : Option Text
  pub workspace : Bool
  pub producer : Option Text
  pub binding_digest : Option Text
  pub credential_reference : Option Text

-- What `mkdir` and the permissions of a directory give.
pub data Directory : Type 0 where
  unmade : Fault → Directory
  shared private : Directory

-- Writing a temporary file and putting it in place: the exception may come before the replacement
-- or, from the directory's `fsync`, behind it.
pub data Write : Type 0 where
  written : Write
  unwritten written_then : Fault → Write

-- Reading a state file: it is no regular file, too large, or its permissions are too wide; the
-- system refuses it or its JSON is broken; its text is undecodable; or it is read.
pub data Access : Type 0 where
  withheld unreadable undecodable readable : Access

pub record Details : Type 0 where
  pub symlink : Bool
  pub regular : Bool
  pub owned : Bool
  pub writable : Bool
  pub resolved : Text

-- `shutil.which` and `lstat` on the credential client.
pub data Helper : Type 0 where
  absent unreachable : Helper
  found : Details → Helper

-- A private observation input; without a text it cannot be read.
pub record Contract : Type 0 where
  pub symlink : Bool
  pub regular : Bool
  pub size : ℕ
  pub text : Option Text

-- `executable` is Python's own and `dashboard` the path of tools/telemetry-dashboard.py. Digests are
-- hexadecimal; `loads_bytes`, `b64decode` and `sha256_bytes` are about bytes.
pub record Env : Type 0 where
  pub proc : Log → List Text → Proc
  pub environ : Text → Option Text
  pub helper : Log → Helper
  pub directory : Log → Text → Directory
  pub write : Log → Text → Text → Write
  pub unlink : Log → Option Fault
  pub access : Log → Text → Access
  pub now : Log → Text
  pub uuid : Log → ℕ → Text
  pub loads : Text → Option Json
  pub sha256 : Text → Text
  pub loads_bytes : Text → Option Json
  pub b64decode : Text → Option Text
  pub sha256_bytes : Text → Text
  pub codex : Log → Codex
  pub executable : Text
  pub dashboard : Text
  pub contract : Log → Text → Contract
