-- ===== src/Api/CreateOutputLaws.antt =====
-- `create_output` of src/api.rs: it changes nothing, or it saves the output.
use stream_gateway.Common.{
  ℕ, ◌≡◌, ◌⊎◌, refl, sym, ap, ◌∙◌, Bool, true, false, Option, none, some, inl, inr, Bool-cases,
  Option-cases, some-injective, arith,
}
use stream_gateway.Common.Maps.{lookup}
use stream_gateway.Models.Requests.{SrtOutputConfig, CreateOutputRequest}
use stream_gateway.Models.Outputs.{is_automatic_port}
use stream_gateway.Streams.State.{InputInfo}
use stream_gateway.Database.Tables.{Database}
use stream_gateway.Api.Assign.{assign_output_port, set_output_port}
use stream_gateway.Api.Names.{output_input_id}
use stream_gateway.Api.Gateway.{Gateway, Site, free_port}
use stream_gateway.Api.CreateOutput.{
  final_output, save_output, in_conflict, check_output, validate_output, create_output,
}
use stream_gateway.Api.Validate.{Checked, ok, err}

set_output_port-input_id :
    (port : ℕ) (req : CreateOutputRequest)
    → output_input_id (set_output_port port req) ≡ output_input_id req
unfolding set_output_port output_input_id
set_output_port-input_id port (CreateOutputRequest.udp c) = refl
set_output_port-input_id port (CreateOutputRequest.srt id name (SrtOutputConfig.listener c)) = refl
set_output_port-input_id port (CreateOutputRequest.srt id name (SrtOutputConfig.caller c)) = refl

-- The request that is saved is for the same input.
pub final_output-input_id :
    (site : Site) (db : Database) (req : CreateOutputRequest)
    (final : CreateOutputRequest × Option ℕ)
    → final_output site db req ≡ some final
    → output_input_id final.0 ≡ output_input_id req
unfolding final_output assign_output_port
final_output-input_id site db req final e = elim (Bool-cases (is_automatic_port req)) [
  | inl auto ↦ elim (Option-cases (free_port site db)) [
    | inl f ↦ absurd (ground (arith, sym (none_free auto f) ∙ e))
    | inr (port, f) ↦
        ap (λ r. output_input_id r.0) (sym (some-injective (sym (assigned auto port f) ∙ e)))
        ∙ set_output_port-input_id port req
  ]
  | inr fixed ↦ ap (λ r. output_input_id r.0) (sym (some-injective (sym (kept fixed) ∙ e)))
]
  where
    none_free :
        is_automatic_port req ≡ true → free_port site db ≡ none → final_output site db req ≡ none
    none_free auto f = rw (auto, final_output) (rw f refl)

    assigned :
        is_automatic_port req ≡ true
        → (port : ℕ) → free_port site db ≡ some port
        → final_output site db req ≡ some (set_output_port port req, some port)
    assigned auto port f = rw (auto, final_output) (rw f (rw (auto, assign_output_port) refl))

    kept : is_automatic_port req ≡ false → final_output site db req ≡ some (req, none)
    kept fixed = rw (fixed, final_output) refl

-- The input, the request that is saved, and what was looked at before it was.
unfoldable pub Saves : Site → Gateway → CreateOutputRequest → Type 0
unfolding lookup output_input_id in_conflict create_output save_output
Saves site g req =
    (input : InputInfo) × (final : CreateOutputRequest) × (port : Option ℕ) × (lookup
        (output_input_id final) g.world.streams
      ≡ some input)
    × (in_conflict site g.database final ≡ some false)
    × (create_output site g req ≡ save_output site g input final port)

pub create_output-cases :
    (site : Site) (g : Gateway) (req : CreateOutputRequest)
    → ((create_output site g req).0 ≡ g) ⊎ Saves site g req
unfolding create_output check_output Saves
create_output-cases site g req = checked (validate_output site req) refl
  where
    searched :
        (input : InputInfo) (final : CreateOutputRequest × Option ℕ)
        → validate_output site req ≡ ok
        → lookup (output_input_id req) g.world.streams ≡ some input
        → final_output site g.database req ≡ some final
        → (c : Option Bool) → in_conflict site g.database final.0 ≡ c
        → ((create_output site g req).0 ≡ g) ⊎ Saves site g req
    searched input final e l f none h =
        inl (rw (e, create_output) (rw l (rw f (rw (h, check_output) refl))))
    searched input final e l f (some true) h =
        inl (rw (e, create_output) (rw l (rw f (rw (h, check_output) refl))))
    searched input final e l f (some false) h = inr (
      input,
      final.0,
      final.1,
      rw (final_output-input_id site g.database req final f) l,
      h,
      rw (e, create_output) (rw l (rw f (rw (h, check_output) refl))),
    )

    found :
        (input : InputInfo)
        → validate_output site req ≡ ok
        → lookup (output_input_id req) g.world.streams ≡ some input
        → ((create_output site g req).0 ≡ g) ⊎ Saves site g req
    found input e l = elim (Option-cases (final_output site g.database req)) [
      | inl f ↦ inl (rw (e, create_output) (rw l (rw f refl)))
      | inr (final, f) ↦ searched input final e l f (in_conflict site g.database final.0) refl
    ]

    checked :
        (c : Checked)
        → validate_output site req ≡ c
        → ((create_output site g req).0 ≡ g) ⊎ Saves site g req
    checked (err x) e = inl (rw (e, create_output) refl)
    checked ok e = elim (Option-cases (lookup (output_input_id req) g.world.streams)) [
      | inl l ↦ inl (rw (e, create_output) (rw l refl))
      | inr (input, l) ↦ found input e l
    ]
