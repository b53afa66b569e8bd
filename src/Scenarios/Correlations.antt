-- ===== src/Scenarios/Correlations.antt =====
-- The correlation table at concrete inputs.
use matfix.Shared.{false, [], ◌∷◌, pos, String}
use matfix.Persistence.Correlations.{
  CorrelationState, pending, resolved, CorrelationEntry, CorrelationDb, delete_expired,
}
use matfix.Persistence.Correlations.Sweep.{Sweeps, delete_expired-Sweeps}

abbrev row : String → CorrelationState → CorrelationEntry
row id state = record {
  id = id;
  type = "ask";
  account_id = "bot";
  room_id = "";
  outbound_event_id = "";
  filter_json = "{}";
  timeout_at = pos 50;
  state = state;
  created_at = pos 1;
  updated_at = pos 1;
}

abbrev table : CorrelationDb
table = record { rows = row "a" pending ∷ row "b" resolved ∷ []; faults = false ∷ [] }

delete_expired-Sweeps_example :
    Sweeps
      (pos 60)
      table.rows
      (delete_expired (pos 60) table).0
      (delete_expired (pos 60) table).1.rows
delete_expired-Sweeps_example = delete_expired-Sweeps (pos 60) table
