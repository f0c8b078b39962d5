-- ===== src/Models/Analysis.antt =====
-- `AnalysisType` of src/models.rs.
use stream_gateway.Common.{◌≡◌, refl, Bool, true, false, Option, none, some, if◌then◌else◌}
use stream_gateway.Common.Texts.{Text, codes, text_eq}
use stream_gateway.Models.Status.{to_lowercase}

pub data AnalysisType : Type 0 where
  mux tr101 : AnalysisType

-- `fmt::Display for AnalysisType`
unfoldable pub to_string : AnalysisType → Text
to_string AnalysisType.mux = codes "mux"
to_string AnalysisType.tr101 = codes "tr101"

-- `FromStr for AnalysisType`; `none` is the error.
unfoldable pub from_str : Text → Option AnalysisType
unfolding text_eq
from_str s =
    if text_eq (to_lowercase s) (codes "mux")
    then some AnalysisType.mux
    else if text_eq (to_lowercase s) (codes "tr101")
    then some AnalysisType.tr101
    else none

-- The derived `PartialEq`.
unfoldable pub same_type : AnalysisType → AnalysisType → Bool
same_type AnalysisType.mux AnalysisType.mux = true
same_type AnalysisType.tr101 AnalysisType.tr101 = true
same_type _ _ = false

-- An analysis type is read back from what is printed of it.
pub analysis_from_str-to_string : (t : AnalysisType) → from_str (to_string t) ≡ some t
unfolding from_str to_string
analysis_from_str-to_string AnalysisType.mux = refl
analysis_from_str-to_string _ = refl
