-- ===== src/Api/MergeLaws.antt =====
-- Laws of the merge of an update into a stored configuration.
use stream_gateway.Common.{ℕ, ◌≡◌, refl, ap, ◌∙◌, Option, none, some, arith, or_option}
use stream_gateway.Common.Texts.{Text}
use stream_gateway.Models.Requests.{
  UdpInput, SrtListener, SrtInputConfig, CreateInputRequest, UdpOutput, SrtOutputConfig,
  CreateOutputRequest,
}
use stream_gateway.Models.Updates.{
  UpdateUdpInput, UpdateSrtListener, UpdateSrtInputConfig, UpdateInputRequest, UpdateUdpOutput,
  UpdateSrtOutputConfig, UpdateOutputRequest,
}
use stream_gateway.Models.Inputs.{get_bind_port}
use stream_gateway.Models.Outputs.{get_remote_host, get_remote_port}
use stream_gateway.Api.Merge.{
  Merged, ok, err, map_merged, merge_optional_field, merge_udp_input, merge_listener,
  merge_srt_input, merge_input_config, merge_udp_output, merge_srt_output, merge_output_config,
}

or_option_twice {ℓ} : {A : Type ℓ} (u c : Option A) → or_option u (or_option u c) ≡ or_option u c
or_option_twice none c = refl
or_option_twice (some a) c = refl

merge_optional_field_twice :
    (u : Option (Option Text)) (c : Option Text)
    → merge_optional_field u (merge_optional_field u c) ≡ merge_optional_field u c
unfolding merge_optional_field
merge_optional_field_twice none c = refl
merge_optional_field_twice (some a) c = refl

ruleset twice = (or_option_twice, merge_optional_field_twice)

merge_listener_twice :
    (c : SrtListener) (u : UpdateSrtListener)
    → merge_listener (merge_listener c u) u ≡ merge_listener c u
unfolding merge_listener
merge_listener_twice c u = simp twice

abbrev pub again {ℓ} : {A : Type ℓ} → Merged A → (A → Merged A) → Merged A
again (ok a) f = f a
again (err e) f = err e

merge_srt_input_twice :
    (c : SrtInputConfig) (u : UpdateSrtInputConfig)
    → again (merge_srt_input c u) (λ d. merge_srt_input d u) ≡ merge_srt_input c u
unfolding merge_srt_input
merge_srt_input_twice (SrtInputConfig.listener c) (UpdateSrtInputConfig.listener u) =
    simp merge_listener_twice
merge_srt_input_twice (SrtInputConfig.caller c) (UpdateSrtInputConfig.caller u) = simp twice
merge_srt_input_twice (SrtInputConfig.listener c) (UpdateSrtInputConfig.caller u) = refl
merge_srt_input_twice (SrtInputConfig.caller c) (UpdateSrtInputConfig.listener u) = refl

merge_srt_output_twice :
    (c : SrtOutputConfig) (u : UpdateSrtOutputConfig)
    → again (merge_srt_output c u) (λ d. merge_srt_output d u) ≡ merge_srt_output c u
unfolding merge_srt_output
merge_srt_output_twice (SrtOutputConfig.listener c) (UpdateSrtOutputConfig.listener u) =
    simp merge_listener_twice
merge_srt_output_twice (SrtOutputConfig.caller c) (UpdateSrtOutputConfig.caller u) = simp twice
merge_srt_output_twice (SrtOutputConfig.listener c) (UpdateSrtOutputConfig.caller u) = refl
merge_srt_output_twice (SrtOutputConfig.caller c) (UpdateSrtOutputConfig.listener u) = refl

map_merged_twice {ℓ} :
    {A B : Type ℓ} (f : A → B) (m : Merged A) (g : A → Merged A) (h : B → Merged B)
    → ((a : A) → h (f a) ≡ map_merged f (g a))
    → again m g ≡ m
    → again (map_merged f m) h ≡ map_merged f m
map_merged_twice f (ok a) g h p q = p a ∙ ap (map_merged f) q
map_merged_twice f (err e) g h p q = refl

-- What the merge makes of its own result and the same update is that result.
pub merge_input_config_twice :
    (c : CreateInputRequest) (u : UpdateInputRequest)
    → again (merge_input_config c u) (λ d. merge_input_config d u) ≡ merge_input_config c u
unfolding merge_input_config merge_udp_input
merge_input_config_twice (CreateInputRequest.udp c) (UpdateInputRequest.udp u) = simp twice
merge_input_config_twice (CreateInputRequest.srt name config) (UpdateInputRequest.srt new_name u) =
    map_merged_twice _ (merge_srt_input config u) (λ d. merge_srt_input d u) _
      (λ d. rw or_option_twice) (merge_srt_input_twice config u)
merge_input_config_twice (CreateInputRequest.spts c) (UpdateInputRequest.spts new_name new_fill) =
    simp twice
merge_input_config_twice (CreateInputRequest.udp c) (UpdateInputRequest.srt n u) = refl
merge_input_config_twice (CreateInputRequest.udp c) (UpdateInputRequest.spts n u) = refl
merge_input_config_twice (CreateInputRequest.srt n c) (UpdateInputRequest.udp u) = refl
merge_input_config_twice (CreateInputRequest.srt n c) (UpdateInputRequest.spts m u) = refl
merge_input_config_twice (CreateInputRequest.spts c) (UpdateInputRequest.udp u) = refl
merge_input_config_twice (CreateInputRequest.spts c) (UpdateInputRequest.srt n u) = refl

pub merge_output_config_twice :
    (c : CreateOutputRequest) (u : UpdateOutputRequest)
    → again (merge_output_config c u) (λ d. merge_output_config d u) ≡ merge_output_config c u
unfolding merge_output_config merge_udp_output
merge_output_config_twice (CreateOutputRequest.udp c) (UpdateOutputRequest.udp u) = simp twice
merge_output_config_twice (CreateOutputRequest.srt i n c) (UpdateOutputRequest.srt m u) =
    map_merged_twice _ (merge_srt_output c u) (λ d. merge_srt_output d u) _
      (λ d. rw or_option_twice) (merge_srt_output_twice c u)
merge_output_config_twice (CreateOutputRequest.udp c) (UpdateOutputRequest.srt n u) = refl
merge_output_config_twice (CreateOutputRequest.srt i n c) (UpdateOutputRequest.udp u) = refl

-- A UDP input that has a port only in the legacy `listen_port` binds that port, and after an update
-- that names no port it binds port 0.
pub merge_udp_input_forgets_port :
    (c : UdpInput) (u : UpdateUdpInput) (port : ℕ)
    → c.bind_port ≡ none
    → c.listen_port ≡ some port
    → u.bind_port ≡ none
    → (get_bind_port (CreateInputRequest.udp c) ≡ port)
      × (get_bind_port (CreateInputRequest.udp (merge_udp_input c u)) ≡ 0)
unfolding merge_udp_input get_bind_port
merge_udp_input_forgets_port c u port h l n = ground arith

-- A UDP output without the new host and port fields, updated by a request that names neither, has no
-- remote host and no remote port afterwards, whatever its legacy `destination_addr` named.
pub merge_udp_output_forgets_destination :
    (c : UdpOutput) (u : UpdateUdpOutput)
    → c.remote_host ≡ none
    → c.remote_port ≡ none
    → u.remote_host ≡ none
    → u.remote_port ≡ none
    → (get_remote_host (CreateOutputRequest.udp (merge_udp_output c u)) ≡ none)
      × (get_remote_port (CreateOutputRequest.udp (merge_udp_output c u)) ≡ none)
unfolding merge_udp_output get_remote_host get_remote_port
merge_udp_output_forgets_destination c u h p n m = ground arith
