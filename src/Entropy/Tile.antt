-- ===== src/Entropy/Tile.antt =====
-- `TileEntropyState` of crates/jxr-native/src/entropy/adaptive.rs: the state of one coded tile.
use jxr.Entropy.Band.{dc, lowpass, highpass}
use jxr.Entropy.Adaptive.{DcVlcState, AcVlcState, new_dc, new_ac}
use jxr.Entropy.Model.{CoefficientModel, new}
use jxr.Entropy.Scan.{
  AdaptiveLpScan, AdaptiveHpScan, new_lp, new_hp, reset_totals_lp, reset_totals_hp,
}

pub record TileEntropyState : Type 0 where
  pub dc_vlc : DcVlcState
  pub lp_vlc : AcVlcState
  pub hp_vlc : AcVlcState
  pub lp_scan : AdaptiveLpScan
  pub hp_scan : AdaptiveHpScan
  pub dc_model : CoefficientModel
  pub lp_model : CoefficientModel
  pub hp_model : CoefficientModel

unfoldable pub new_tile : TileEntropyState
new_tile = record {
  dc_vlc = new_dc;
  lp_vlc = new_ac;
  hp_vlc = new_ac;
  lp_scan = new_lp;
  hp_scan = new_hp;
  dc_model = new dc;
  lp_model = new lowpass;
  hp_model = new highpass;
}

unfoldable pub reset_scan_totals : TileEntropyState → TileEntropyState
reset_scan_totals s = record s {
  lp_scan = reset_totals_lp s.lp_scan;
  hp_scan = reset_totals_hp s.hp_scan;
}
