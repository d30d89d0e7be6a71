-- ===== src/Claim/Lease.antt =====
-- check-claim-generation.py `lease_minutes`, `marker_lease`, `expiry_of` and `parse_instant`.
use fs_quint.Base.{
  ℕ, ◌+◌, ◌-◌, ◌*◌, ℤ, pos, Bool, true, false, Option, none, some, [], ◌∷◌, ltb, leb, ltb_ℤ, sub_ℕ,
  quotient, pos_part, neg_part, if◌then◌else◌, ◌==◌, ◌++◌,
}
use fs_quint.Base.Text.{Text, codes, strip, empty}
use fs_quint.Base.Text.Decimal.{int_of}
use fs_quint.Host.{gate_error, Result, value, raised, Datetime, Env}

abbrev pub default_lease_minutes : ℤ
default_lease_minutes = pos 120

-- `$FSGG_CLAIM_LEASE_MIN`, when the command line gives no lease.
lease_from_env : Option Text → Result ℤ
unfolding strip int_of
lease_from_env none = value default_lease_minutes
lease_from_env (some raw) =
    if empty (strip raw) then value default_lease_minutes else elim (int_of (strip raw)) [
      | none ↦ raised gate_error
      | some n ↦ if ltb_ℤ (pos 0) n then value n else raised gate_error
    ]

unfoldable pub lease_minutes : Option ℤ → Option Text → Result ℤ
unfolding lease_from_env
lease_minutes (some n) raw = value n
lease_minutes none raw = lease_from_env raw

-- Where a lease came from, as the diagnosis prints it.
pub data Source : Type 0 where
  set_by_option undeclared not_a_number not_positive declared too_large : Source

pub record Lease : Type 0 where
  pub minutes : ℤ
  pub source : Source

unfoldable pub declared_lease : Option Text → ℤ → Lease
unfolding int_of
declared_lease none fallback = record { minutes = fallback; source = undeclared }
declared_lease (some raw) fallback = elim (int_of raw) [
  | none ↦ record { minutes = fallback; source = not_a_number }
  | some n ↦
      if ltb_ℤ (pos 0) n
      then record { minutes = n; source = declared }
      else record { minutes = fallback; source = not_positive }
]

-- The marker's `lease=` value, the fallback, and whether `--lease-minutes` was given.
unfoldable pub marker_lease : Option Text → ℤ → Bool → Lease
unfolding declared_lease
marker_lease raw fallback true = record { minutes = fallback; source = set_by_option }
marker_lease raw fallback false = declared_lease raw fallback

-- Microseconds in a second, a minute and a day, and in the years 1 to 9999.
abbrev pub second : ℕ
second = 1_000_000

abbrev pub minute : ℕ
minute = 60_000_000

abbrev pub day : ℕ
day = 86_400_000_000

abbrev pub end_of_time : ℕ
end_of_time = 3_652_059 * 86_400_000_000

-- `at + timedelta(minutes=...)` moves the wall clock and keeps the zone. Outside the years 1 to
-- 9999, and so for every `timedelta` that is itself too large, it raises `OverflowError`.
unfoldable pub expiry_of : Datetime → ℤ → Option Datetime
expiry_of at minutes =
    let up = at.local + pos_part minutes * minute in
    let down = neg_part minutes * minute in
    if leb down up
    then (if ltb (up - down) end_of_time then some (record at { local = up - down }) else none)
    else none

-- `raw.replace("Z", "+00:00")`
replace_zulu : Text → Text
replace_zulu [] = []
replace_zulu (c ∷ s) =
    let rest = replace_zulu s in if c == b'Z' then codes "+00:00" ++ rest else c ∷ rest

aware : record { local : ℕ; zone : Option ℕ } → Datetime
aware r = elim r.zone [
  | none ↦ record { local = r.local; shift = day }
  | some z ↦ record { local = r.local; shift = z }
]

unfoldable pub parse_instant : Env → Text → Result Datetime
unfolding replace_zulu aware
parse_instant env raw = elim (env.fromisoformat (replace_zulu raw)) [
  | none ↦ raised gate_error
  | some r ↦ value (aware r)
]

-- The instant as a number, and `int((now - at).total_seconds())`. The library divides by a float,
-- which is exact for spans below 2 ^ 34 seconds.
unfoldable pub instant : Datetime → ℕ
instant d = d.local + d.shift

unfoldable pub seconds_between : Datetime → Datetime → ℤ
unfolding instant
seconds_between at now = quotient (sub_ℕ (instant now) (instant at)) second
