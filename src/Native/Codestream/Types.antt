-- ===== src/Native/Codestream/Types.antt =====
-- `ParsedCodestream` of codestream.rs.
use jxr.Base.{Option}
use jxr.Native.Header.Types.{ParsedHeaders}
use jxr.Native.AnnexA.{AnnexAImage}
use jxr.Native.AnnexA.Ranges.{Range}
use jxr.Native.Tail.{CodestreamDirectory}

pub record ParsedCodestream : Type 0 where
  pub codestream_range : Range
  pub headers : ParsedHeaders
  pub directory : CodestreamDirectory
  pub separate_alpha_headers : Option ParsedHeaders
  pub separate_alpha_directory : Option CodestreamDirectory
  pub annex_a : Option AnnexAImage
