-- ===== src/Mode.antt =====
-- src/lib/mode.ts: which mode a deployment runs in and what it may move. The environment is a
-- record of the variables that are read; ZCASH_MIN_CONFIRMATIONS is given as the number it reads as.
use stamppad.Prelude.{ℕ, Bool, true, false, not, Option, none, some, map, if◌then◌else◌}
use stamppad.Text.{Text, codes, text_eq}
use stamppad.Protocol.Address.{to_lower_unit}
use stamppad.Protocol.Types.{
  SourceNetwork, DestNetwork, solana_demo, solana_devnet, solana_mainnet_beta, zcash_demo,
  zcash_test, zcash_main,
}

pub data StampMode : Type 0 where
  demo testnet mainnet : StampMode

pub record Environment : Type 0 where
  pub stamp_mode : Option Text
  pub next_public_stamp_mode : Option Text
  pub stamp_go_live : Option Text
  pub stamp_allow_live_launch : Option Text
  pub stamp_allow_live_burns : Option Text
  pub stamp_allow_live_zcash_publish : Option Text
  pub stamp_allow_live_stamp_sales : Option Text
  pub zcash_min_confirmations : Option ℕ

-- The fields of `flags()` that the modelled code reads.
pub record Flags : Type 0 where
  pub mode : StampMode
  pub allow_live_launch : Bool
  pub allow_live_burns : Bool
  pub allow_live_zcash_publish : Bool
  pub allow_live_stamp_sales : Bool
  pub zcash_min_confirmations : ℕ
  pub source_network : SourceNetwork
  pub dest_network : DestNetwork

-- v === "true"
abbrev pub is_true : Option Text → Bool
is_true none = false
is_true (some t) = text_eq t (codes "true")

abbrev pub env_flag : Environment → Option Text → Bool
env_flag env v = if is_true v then true else is_true env.stamp_go_live

abbrev pub or_text : Option Text → Text → Text
or_text none d = d
or_text (some t) d = t

abbrev pub or_number : Option ℕ → ℕ → ℕ
or_number none d = d
or_number (some n) d = n

abbrev pub mode_of : Text → StampMode
mode_of raw =
    if text_eq raw (codes "testnet")
    then testnet
    else if text_eq raw (codes "mainnet")
    then mainnet
    else demo

unfoldable pub stamp_mode : Environment → StampMode
stamp_mode env =
    mode_of (
      map to_lower_unit
        (or_text env.stamp_mode (or_text env.next_public_stamp_mode (codes "demo"))))

abbrev pub source_network_of : StampMode → SourceNetwork
source_network_of demo = solana_demo
source_network_of testnet = solana_devnet
source_network_of mainnet = solana_mainnet_beta

abbrev pub dest_network_of : StampMode → DestNetwork
dest_network_of demo = zcash_demo
dest_network_of testnet = zcash_test
dest_network_of mainnet = zcash_main

unfoldable pub flags : Environment → Flags
flags env = record {
  mode = stamp_mode env;
  allow_live_launch = env_flag env env.stamp_allow_live_launch;
  allow_live_burns = env_flag env env.stamp_allow_live_burns;
  allow_live_zcash_publish = env_flag env env.stamp_allow_live_zcash_publish;
  allow_live_stamp_sales = is_true env.stamp_allow_live_stamp_sales;
  zcash_min_confirmations = or_number env.zcash_min_confirmations 10;
  source_network = source_network_of (stamp_mode env);
  dest_network = dest_network_of (stamp_mode env);
}

pub data Movement : Type 0 where
  launch burn publish stamp_sale : Movement

abbrev pub allowed : Flags → Movement → Bool
allowed f launch = f.allow_live_launch
allowed f burn = f.allow_live_burns
allowed f publish = f.allow_live_zcash_publish
allowed f stamp_sale = f.allow_live_stamp_sales

-- Whether `liveMoneyMovementBlocked` gives a reason.
unfoldable pub live_money_movement_blocked : Flags → Movement → Bool
live_money_movement_blocked f kind = elim f.mode [
  | demo ↦ false
  | testnet ↦ not (allowed f kind)
  | mainnet ↦ not (allowed f kind)
]
