-- ===== src/Protocol/Ledger/Tests.antt =====
-- One burn that is given twice, with one publication.
use stamppad.Prelude.{◌≡◌, refl, none, some, [], ◌∷◌}
use stamppad.Protocol.Types.{solana_demo, zcash_demo}
use stamppad.Protocol.Validate.Tests.{seven_hash, burn_tx, stamp_publication}
use stamppad.Protocol.Ledger.{RebuildInput, Rebuild, RebuildOutput, rebuild_events, rebuild_ledger}
use stamppad.Protocol.Ledger.Sorting.{HasLocators, IsLedger, rebuild_ledger-IsLedger}
use stamppad.Protocol.Encoding.{parse_locator, read_number}
use stamppad.Text.{text_eq}
use stamppad.Protocol.Ledger.Claims.{IsSound, rebuild_events-IsSound}

abbrev twice_burned : RebuildInput
twice_burned = record {
  source_network = solana_demo;
  destination_network = zcash_demo;
  min_zcash_confirmations = 3;
  solana = burn_tx ∷ burn_tx ∷ [];
  zcash = stamp_publication ∷ [];
}

rebuild_events-IsSound_example :
    (st : Rebuild) × (rebuild_events seven_hash twice_burned ≡ some st)
    × IsSound seven_hash twice_burned st
rebuild_events-IsSound_example = rebuild_events-IsSound seven_hash twice_burned

twice_burned-HasLocators : HasLocators seven_hash twice_burned
unfolding parse_locator read_number text_eq
twice_burned-HasLocators = (
  (((0, none), refl), (((1, none), refl), tt)),
  ((((0, none), refl), (((1, none), refl), tt)), tt),
)

rebuild_ledger-IsLedger_example :
    (out : RebuildOutput) × (rebuild_ledger seven_hash twice_burned ≡ some out)
    × IsLedger seven_hash twice_burned out
rebuild_ledger-IsLedger_example =
    rebuild_ledger-IsLedger seven_hash twice_burned twice_burned-HasLocators
