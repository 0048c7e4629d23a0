-- ===== src/Market/Listings.antt =====
-- The listings of the store over any sequence of requests.
use stamppad.Prelude.{Option, none, some, List, [], ◌∷◌}
use stamppad.Text.{text_key}
use stamppad.Mode.{Flags}
use stamppad.Store.{MemoryShape}
use stamppad.Protocol.Crypto.{Crypto}
use stamppad.Modules.Settlement.Stages.{Fine, HasListings}
use stamppad.Market.{tick_demo_chain}
use stamppad.Market.Requests.{
  Request, create, reserve, advance, submit, reconcile, pass_time, run_request, run_requests,
}
use stamppad.Market.Steps.{
  create_listing-Fine, reserve_listing-Fine, advance_listing-Fine, submit_transfer-Fine,
  reconcile_listings-Fine,
}

module _ (crypto : Crypto) (f : Flags) where
  store-HasListings :
      {A : Type 0} (r : Option A × MemoryShape) → Fine crypto r → HasListings crypto r.1
  store-HasListings (none, s) h = h
  store-HasListings (some a, s) h = h.0

  run_request-HasListings :
      (s : MemoryShape) (r : Request)
      → HasListings crypto s
      → HasListings crypto (run_request crypto f s r)
  unfolding run_request tick_demo_chain
  run_request-HasListings s (create i a k p z n fresh) h =
      store-HasListings _ (create_listing-Fine crypto f i a k p z n fresh s h)
  run_request-HasListings s (reserve i b k fresh) h =
      store-HasListings _ (reserve_listing-Fine crypto f i b k fresh s h)
  run_request-HasListings s (advance i a g k fresh) h =
      store-HasListings _ (advance_listing-Fine crypto f i a g k fresh s h)
  run_request-HasListings s (submit i t g k fresh) h =
      store-HasListings _ (submit_transfer-Fine crypto f i t g k fresh s h)
  run_request-HasListings s (reconcile now) h =
      store-HasListings _ (reconcile_listings-Fine crypto f now s h)
  run_request-HasListings s pass_time h = h

  -- Whatever requests are made, thrown or not, of a store whose listings are kept well, they stay so:
  -- each is filed under its id; from its reservation on, until it is over, it names a buyer who is
  -- not the seller and keeps a secret whose hash is its lock; from its offer on it has an offer for
  -- its stamp, step, buyer, price and lock that the seller's signature covers; and from its
  -- authorization on, so also when the payment is locked, it has an authorization of the transfer to
  -- the buyer that reveals the secret, names the offer, and carries the seller's signature.
  pub run_requests-HasListings :
      (s : MemoryShape) (rs : List Request)
      → HasListings crypto s
      → HasListings crypto (run_requests crypto f s rs)
  unfolding run_requests
  run_requests-HasListings s [] h = h
  run_requests-HasListings s (r ∷ rs) h =
      run_requests-HasListings (run_request crypto f s r) rs (run_request-HasListings s r h)
