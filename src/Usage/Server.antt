-- ===== src/Usage/Server.antt =====
-- `AppServer`: its process answers each request with lines on its standard output. What it answers
-- is a function of the requests so far.
use fs_quint.Base.{
  ℕ, ◌*◌, pos, Bool, true, ◌||◌, Option, none, some, List, [], ◌∷◌, ltb, length, if◌then◌else◌,
}
use fs_quint.Base.Text.{Text, codes, empty}
use fs_quint.Host.Value.{Json, null, str, obj, bool, Fields, end, field, get_or_null}
use fs_quint.Host.Value.Equality.{is_number}
use fs_quint.Usage.{Fault, host_unavailable, os_error, crash, Tried, done, threw}

-- A line, or the deadline: nothing more comes in time.
pub data Read : Type 0 where
  silent : Read
  line : Text → Read

pub record Request : Type 0 where
  pub id : ℕ
  pub method : Text
  pub params : Fields

-- The request cannot be written, or these lines come in until the deadline. Lines that an earlier
-- request left unread come first.
pub data Exchange : Type 0 where
  broken : Exchange
  reads : List Read → Exchange

-- The file that `rollout_usage` opens: its checks, and its lines as bytes. `loads_bytes` is
-- `json.loads` on a line.
pub record Rollout : Type 0 where
  pub symlink : Bool
  pub regular : Bool
  pub inside : Bool
  pub size : ℕ
  pub lines : List Text

pub record Codex : Type 0 where
  pub starts : Bool
  pub exchange : List Request → Exchange
  pub loads : Text → Option Json
  pub loads_bytes : Text → Option Json
  pub rollout : Text → Rollout
  pub show : Json → Text

abbrev pub Ask : Type 0 → Type 0
Ask A = List Request → record { result : Tried A; asked : List Request }

module _ {A : Type 0} where
  abbrev pub pure : A → Ask A
  pure a w = record { result = done a; asked = w }

  abbrev pub raise : Fault → Ask A
  raise e w = record { result = threw e; asked = w }

  abbrev pub lift : Tried A → Ask A
  lift r w = record { result = r; asked = w }

abbrev pub proceed : {A B : Type 0} → Tried A → (A → Ask B) → Ask B
proceed (done a) f w = f a w
proceed (threw e) f w = record { result = threw e; asked = w }

infixl 10 ◌>>=◌ ◌>>◌
abbrev pub ◌>>=◌ : {A B : Type 0} → Ask A → (A → Ask B) → Ask B
◌>>=◌ m f w = proceed (m w).result f (m w).asked

abbrev pub ◌>>◌ : {A B : Type 0} → Ask A → Ask B → Ask B
m >> n = m >>= λ _. n

-- A response with the right id: its `result` is a dictionary, and its `error` is missing.
result_of : Fields → Tried Fields
unfolding get_or_null
result_of fs = elim (get_or_null (codes "error") fs) [
  | null ↦ elim (get_or_null (codes "result") fs) [ obj r ↦ done r | _ ↦ threw host_unavailable ]
  | _ ↦ threw host_unavailable
]

abbrev pub max_line : ℕ
max_line = 1024 * 1024

module _ (codex : Codex) where
  -- The first response with the id; what is no JSON is skipped, and JSON without `get` is an
  -- `AttributeError`.
  unfoldable pub response : ℕ → List Read → Tried Fields
  unfolding is_number result_of get_or_null
  response id [] = threw host_unavailable
  response id (silent ∷ rest) = threw host_unavailable
  response id (line text ∷ rest) =
      let later = response id rest in
      if empty text || ltb max_line (length text)
      then threw host_unavailable
      else elim (codex.loads text) [
        | none ↦ later
        | some (obj fs) ↦
            if is_number (pos id) (get_or_null (codes "id") fs) then result_of fs else later
        | some _ ↦ threw crash
      ]

  unfoldable pub receive : ℕ → Exchange → Tried Fields
  unfolding response
  receive id broken = threw os_error
  receive id (reads lines) = response id lines

  unfoldable pub request : ℕ → Text → Fields → Ask Fields
  unfolding receive
  request id method params w =
      let asked = record { id = id; method = method; params = params } ∷ w in
      record { result = receive id (codex.exchange asked); asked = asked }

  client_info : Fields
  client_info =
      field (codes "clientInfo")
        (obj (
          field (codes "name") (str (codes "fsgg_telemetry")) (
            field (codes "title") (str (codes "FS-GG Telemetry"))
              (field (codes "version") (str (codes "1")) end))))
        (field (codes "capabilities") (obj (field (codes "experimentalApi") (bool true) end)) end)

  -- `OSError` and `HostUnavailable` become the one exception.
  opened : Tried Fields → Tried (Unit {0})
  opened (done fs) = done tt
  opened (threw crash) = threw crash
  opened (threw _) = threw host_unavailable

  initialized : Ask Unit
  unfolding opened request client_info
  initialized w =
      let r = request 1 (codes "initialize") client_info w in
      record { result = opened r.result; asked = r.asked }

  -- `AppServer(command)`
  unfoldable pub open_server : Ask Unit
  unfolding initialized
  open_server = if codex.starts then initialized else raise host_unavailable
