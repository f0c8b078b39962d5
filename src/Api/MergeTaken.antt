-- ===== src/Api/MergeTaken.antt =====
-- What `merge_input_config` and `merge_output_config` of src/api.rs make of each field.
use stream_gateway.Common.{◌≡◌, refl, subst, Option, none, some, or_option}
use stream_gateway.Common.Texts.{Text}
use stream_gateway.Models.Requests.{
  SrtCommonConfig, SrtListener, SrtInputConfig, CreateInputRequest, SrtOutputConfig,
  CreateOutputRequest,
}
use stream_gateway.Models.Updates.{
  UpdateSrtListener, UpdateSrtCaller, UpdateSrtInputConfig, UpdateInputRequest,
  UpdateSrtOutputConfig, UpdateOutputRequest,
}
use stream_gateway.Api.Merge.{
  Merged, ok, err, map_merged, merge_optional_field, merge_udp_input, merge_listener,
  merge_caller_common, merge_srt_input, merge_input_config, merge_udp_output, merge_srt_output,
  merge_output_config,
}
use stream_gateway.Api.MergeLaws.{again, merge_input_config_twice, merge_output_config_twice}
use stream_gateway.Api.Taken.{
  Taken, Cleared, ListenerTakes, CommonTakes, SrtInputTakes, SrtOutputTakes, InputTakes,
  OutputTakes,
}

taken {ℓ} : {A : Type ℓ} (u c : Option A) → Taken u c (or_option u c)
taken none c = refl
taken (some a) c = refl

cleared : (u : Option (Option Text)) (c : Option Text) → Cleared u c (merge_optional_field u c)
unfolding merge_optional_field
cleared none c = refl
cleared (some none) c = refl
cleared (some (some a)) c = refl

-- A merge that succeeds has the property.
abbrev Each {ℓ κ} : {A : Type ℓ} → (A → Type κ) → Merged A → Type κ
Each P (ok a) = P a
Each P (err e) = Unit

listener-Takes : (c : SrtListener) (u : UpdateSrtListener) → ListenerTakes u c (merge_listener c u)
unfolding merge_listener
listener-Takes c u = (
  taken _ _,
  taken _ _,
  taken _ _,
  cleared u.stream_id c.common.stream_id,
  cleared u.passphrase c.common.passphrase,
  taken _ _,
  taken _ _,
)

common-Takes :
    (c : SrtCommonConfig) (u : UpdateSrtCaller) → CommonTakes u c (merge_caller_common c u)
unfolding merge_caller_common
common-Takes c u = (
  taken _ _,
  cleared u.stream_id c.stream_id,
  cleared u.passphrase c.passphrase,
  taken _ _,
  taken _ _,
)

srt_input-Takes :
    (c : SrtInputConfig) (u : UpdateSrtInputConfig) → Each (SrtInputTakes u c) (merge_srt_input c u)
unfolding merge_srt_input
srt_input-Takes (SrtInputConfig.listener c) (UpdateSrtInputConfig.listener u) = listener-Takes c u
srt_input-Takes (SrtInputConfig.caller c) (UpdateSrtInputConfig.caller u) = (
  taken u.remote_host c.remote_host,
  taken u.remote_port c.remote_port,
  taken u.bind_host c.bind_host,
  common-Takes c.common u,
)
srt_input-Takes (SrtInputConfig.listener c) (UpdateSrtInputConfig.caller u) = tt
srt_input-Takes (SrtInputConfig.caller c) (UpdateSrtInputConfig.listener u) = tt

srt_output-Takes :
    (c : SrtOutputConfig) (u : UpdateSrtOutputConfig)
    → Each (SrtOutputTakes u c) (merge_srt_output c u)
unfolding merge_srt_output
srt_output-Takes (SrtOutputConfig.listener c) (UpdateSrtOutputConfig.listener u) =
    listener-Takes c u
srt_output-Takes (SrtOutputConfig.caller c) (UpdateSrtOutputConfig.caller u) = (
  taken u.remote_host c.remote_host,
  taken u.remote_port c.remote_port,
  taken u.bind_host c.bind_host,
  common-Takes c.common u,
)
srt_output-Takes (SrtOutputConfig.listener c) (UpdateSrtOutputConfig.caller u) = tt
srt_output-Takes (SrtOutputConfig.caller c) (UpdateSrtOutputConfig.listener u) = tt

Each-map {ℓ κ} :
    {A B : Type ℓ} (P : A → Type κ) (Q : B → Type κ) (f : A → B) (m : Merged A)
    → ((a : A) → P a → Q (f a))
    → Each P m
    → Each Q (map_merged f m)
Each-map P Q f (ok a) h p = h a p
Each-map P Q f (err e) h p = tt

input-Takes :
    (c : CreateInputRequest) (u : UpdateInputRequest)
    → Each (InputTakes u c) (merge_input_config c u)
unfolding merge_input_config merge_udp_input
input-Takes (CreateInputRequest.udp c) (UpdateInputRequest.udp u) =
    (taken _ _, taken _ _, taken _ _, taken _ _, taken _ _)
input-Takes (CreateInputRequest.srt name c) (UpdateInputRequest.srt new_name u) =
    Each-map (SrtInputTakes u c) _ (CreateInputRequest.srt (or_option new_name name))
      (merge_srt_input c u) (λ d h. (taken new_name name, h)) (srt_input-Takes c u)
input-Takes (CreateInputRequest.spts c) (UpdateInputRequest.spts new_name new_fill) =
    (taken _ _, taken _ _, refl, refl)
input-Takes (CreateInputRequest.udp c) (UpdateInputRequest.srt n u) = tt
input-Takes (CreateInputRequest.udp c) (UpdateInputRequest.spts n u) = tt
input-Takes (CreateInputRequest.srt n c) (UpdateInputRequest.udp u) = tt
input-Takes (CreateInputRequest.srt n c) (UpdateInputRequest.spts m u) = tt
input-Takes (CreateInputRequest.spts c) (UpdateInputRequest.udp u) = tt
input-Takes (CreateInputRequest.spts c) (UpdateInputRequest.srt n u) = tt

output-Takes :
    (c : CreateOutputRequest) (u : UpdateOutputRequest)
    → Each (OutputTakes u c) (merge_output_config c u)
unfolding merge_output_config merge_udp_output
output-Takes (CreateOutputRequest.udp c) (UpdateOutputRequest.udp u) =
    (taken _ _, taken _ _, taken _ _, taken _ _, taken _ _, taken _ _, refl)
output-Takes (CreateOutputRequest.srt i name c) (UpdateOutputRequest.srt new_name u) =
    Each-map (SrtOutputTakes u c) _ (CreateOutputRequest.srt i (or_option new_name name))
      (merge_srt_output c u) (λ d h. (taken new_name name, h, refl)) (srt_output-Takes c u)
output-Takes (CreateOutputRequest.udp c) (UpdateOutputRequest.srt n u) = tt
output-Takes (CreateOutputRequest.srt i n c) (UpdateOutputRequest.udp u) = tt

-- An update of an input that the merge accepts is of the kind and mode of the input; every field that
-- it names has the new value, a field that it clears has none, and every other field that an update can
-- name is as it was. To merge the same update into the result gives the result again.
pub merge_input_config-Takes :
    (c d : CreateInputRequest) (u : UpdateInputRequest)
    → merge_input_config c u ≡ ok d
    → InputTakes u c d × (merge_input_config d u ≡ ok d)
merge_input_config-Takes c d u e = (
  subst (Each (InputTakes u c)) e (input-Takes c u),
  subst (λ (m : Merged CreateInputRequest). again m (λ x. merge_input_config x u) ≡ m) e
      (merge_input_config_twice c u),
)

-- An update of an output that the merge accepts is of the kind and mode of the output; every field that
-- it names has the new value, a field that it clears has none, every other field that an update can
-- name is as it was, and so is the input that the output belongs to. To merge the same update into the
-- result gives the result again.
pub merge_output_config-Takes :
    (c d : CreateOutputRequest) (u : UpdateOutputRequest)
    → merge_output_config c u ≡ ok d
    → OutputTakes u c d × (merge_output_config d u ≡ ok d)
merge_output_config-Takes c d u e = (
  subst (Each (OutputTakes u c)) e (output-Takes c u),
  subst (λ (m : Merged CreateOutputRequest). again m (λ x. merge_output_config x u) ≡ m) e
      (merge_output_config_twice c u),
)
