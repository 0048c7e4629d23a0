-- ===== src/Indexer/Tests.antt =====
-- The index of one burn and its publication.
use stamppad.Prelude.{◌≡◌, refl, Bool, none, some, [], ◌∷◌}
use stamppad.Text.{text_eq}
use stamppad.Mode.{Flags, demo}
use stamppad.Protocol.Types.{solana_demo, zcash_demo}
use stamppad.Protocol.Encoding.{parse_locator, read_number}
use stamppad.Protocol.Ledger.Sorting.{HasLocators}
use stamppad.Protocol.Validate.Tests.{seven_hash, burn_tx, stamp_publication}
use stamppad.Indexer.{IndexInput, IndexedState, index_chains, rebuild_input}
use stamppad.Indexer.Backed.{IsBacked, index_chains-IsBacked}

abbrev pub demo_flags : Flags
demo_flags = record {
  mode = demo;
  allow_live_launch = Bool.false;
  allow_live_burns = Bool.false;
  allow_live_zcash_publish = Bool.false;
  allow_live_stamp_sales = Bool.false;
  zcash_min_confirmations = 10;
  source_network = solana_demo;
  dest_network = zcash_demo;
}

abbrev one_burn : IndexInput
one_burn = record {
  solana = burn_tx ∷ [];
  zcash = stamp_publication ∷ [];
  transfer_artifacts = [];
  offer_artifacts = [];
  min_zcash_confirmations = none;
}

one_burn-HasLocators : HasLocators seven_hash (rebuild_input demo_flags one_burn)
unfolding parse_locator read_number text_eq
one_burn-HasLocators = ((((0, none), refl), (((1, none), refl), tt)), tt)

index_chains-IsBacked_example :
    (state : IndexedState) × (index_chains seven_hash demo_flags one_burn ≡ some state)
    × IsBacked seven_hash demo_flags one_burn state
index_chains-IsBacked_example =
    index_chains-IsBacked seven_hash demo_flags one_burn one_burn-HasLocators
