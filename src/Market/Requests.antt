-- ===== src/Market/Requests.antt =====
-- The requests of the market, and sequences of them.
use stamppad.Prelude.{Option, List, [], ◌∷◌}
use stamppad.Text.{Text, text_key}
use stamppad.Mode.{Flags}
use stamppad.Store.{MemoryShape}
use stamppad.Protocol.Crypto.{Crypto}
use stamppad.Modules.Listing.{ℤ}
use stamppad.Market.{
  Fresh, ListingAction, advance_listing, create_listing, reconcile_listings, reserve_listing,
  submit_transfer, tick_demo_chain,
}

-- A request that changes the store.
pub data Request : Type 0 where
  create :
      (stamp_id seller_address : Text) (key proof : Option Text) (price_zat : ℤ)
      (note : Option Text)
      → Fresh
      → Request
  reserve : (listing_id buyer_address buyer_public_key_hex : Text) → Fresh → Request
  advance :
      (listing_id : Text)
      → ListingAction
      → (signature_hex public_key_hex : Option Text) → Fresh
      → Request
  submit : (stamp_id to_address signature_hex public_key_hex : Text) → Fresh → Request
  reconcile : (now : Text) → Request
  pass_time : Request

module _ (crypto : Crypto) (f : Flags) where
  unfoldable pub run_request : MemoryShape → Request → MemoryShape
  run_request s (create i a k p z n fresh) = (create_listing crypto f i a k p z n fresh s).1
  run_request s (reserve i b k fresh) = (reserve_listing crypto f i b k fresh s).1
  run_request s (advance i a g k fresh) = (advance_listing crypto f i a g k fresh s).1
  run_request s (submit i t g k fresh) = (submit_transfer crypto f i t g k fresh s).1
  run_request s (reconcile now) = (reconcile_listings crypto f now s).1
  run_request s pass_time = tick_demo_chain s

  unfoldable pub run_requests : MemoryShape → List Request → MemoryShape
  run_requests s [] = s
  run_requests s (r ∷ rs) = run_requests (run_request s r) rs
