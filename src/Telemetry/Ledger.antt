-- ===== src/Telemetry/Ledger.antt =====
-- roadmap-telemetry.py `reconcile_usage`: the ledger of published turns and their observations.
use fs_quint.Base.{
  ℕ, ◌+◌, Bool, true, false, Option, none, some, List, [], ◌∷◌, ◌++◌, pos, if◌then◌else◌,
}
use fs_quint.Base.Text.{Text, codes, same, join}
use fs_quint.Base.Text.Decimal.{show_nat}
use fs_quint.Host.Value.{Json, int, str}
use fs_quint.Usage.{Counts}
use fs_quint.Usage.Turns.{Native, TurnUsage}
use fs_quint.Telemetry.Machine.{Entry, Intent, Row, State}
use fs_quint.Telemetry.Host.{Env}
use fs_quint.Telemetry.Events.{revised, digest}

unfoldable pub entry_of : Text → List Row → Option Entry
unfolding same
entry_of turn [] = none
entry_of turn (r ∷ rs) =
    let rest = entry_of turn rs in if same r.turn turn then some r.entry else rest

-- `ledger[turn] = entry`
unfoldable pub put_entry : Text → Entry → List Row → List Row
unfolding same
put_entry turn e [] = record { turn = turn; entry = e } ∷ []
put_entry turn e (r ∷ rs) =
    let rest = put_entry turn e rs in
    if same r.turn turn then record r { entry = e } ∷ rs else r ∷ rest

-- The intent is entered into the ledger, set, or dropped.
unfoldable pub enter : Intent → State → State
unfolding put_entry
enter i d = record d {
  usage = record d.usage { ledger = put_entry i.turn_id i.entry d.usage.ledger; intent = none };
}

unfoldable pub propose : Intent → State → State
propose i d = record d { usage = record d.usage { intent = some i } }

unfoldable pub forget : State → State
forget d = record d { usage = record d.usage { intent = none } }

unfoldable pub announce_thread : State → State
announce_thread d = record d { usage = record d.usage { thread_published = true } }

unfoldable pub name_thread : Json → State → State
name_thread id d = record d { usage = record d.usage { thread_id = some id } }

unfoldable pub is_recorded : Option Entry → Text → Bool
unfolding same
is_recorded none hash = false
is_recorded (some e) hash = same e.hash hash

unfoldable pub next_revision : Option Entry → ℕ
next_revision none = 0
next_revision (some e) = e.revision + 1

counter_text : Text → ℕ → Text
unfolding show_nat
counter_text key n = codes "\"" ++ (key ++ (codes "\": " ++ show_nat n))

-- `json.dumps([sequence, usage], sort_keys=True)`
unfoldable pub dumped : ℕ → Counts → Text
unfolding counter_text show_nat join
dumped n c =
    codes "["
    ++ (show_nat n
        ++ (codes ", {"
            ++ (join (codes ", ") (
                  counter_text (codes "cached_input_tokens") c.cached
                  ∷ counter_text (codes "input_tokens") c.input
                  ∷ counter_text (codes "output_tokens") c.output
                  ∷ counter_text (codes "reasoning_output_tokens") c.reasoning
                  ∷ counter_text (codes "total_tokens") c.total
                  ∷ [])
                ++ codes "}]")))

unfoldable pub fingerprint : Env → TurnUsage → Text
unfolding dumped
fingerprint env turn = env.sha256 (dumped turn.turn_sequence turn.usage)

unfoldable pub observation : Env → State → Native → TurnUsage → ℕ → Json
unfolding revised digest
observation env d native turn revision =
    revised revision (codes "runtime-turn-usage")
      (digest env (codes "runtime-turn-usage-") (d.invocation ∷ turn.turn_id ∷ []))
      (some d.identity.item)
      ((codes "invocationId", str d.invocation)
        ∷ (codes "threadId", native.thread_id)
        ∷ (codes "turnId", str turn.turn_id)
        ∷ (codes "turnSequence", int (pos turn.turn_sequence))
        ∷ (codes "provider", str (codes "openai"))
        ∷ (codes "requestedModel", str d.identity.model)
        ∷ (codes "observedModel", native.model)
        ∷ (codes "requestedEffort", str d.identity.effort)
        ∷ (codes "observedEffort", native.effort)
        ∷ (codes "backend", str (codes "codex-collaboration"))
        ∷ (codes "scope", str (codes "turn"))
        ∷ (codes "provenance", str (codes "codex-native-token-usage-record"))
        ∷ (codes "input", int (pos turn.usage.input))
        ∷ (codes "cachedInput", int (pos turn.usage.cached))
        ∷ (codes "output", int (pos turn.usage.output))
        ∷ (codes "reasoning", int (pos turn.usage.reasoning))
        ∷ (codes "total", int (pos turn.usage.total))
        ∷ [])
