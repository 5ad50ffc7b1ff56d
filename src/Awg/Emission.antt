-- ===== src/Awg/Emission.antt =====
-- When the AWG parameters of an interface reach the backend: the two `EmitAWG` rules and the
-- validation of internal/domain/interface.go.
use awg_portal.Prelude.{◌≡◌, ◌↔◌, ◌≢◌, true, arith, not}
use awg_portal.Errors.{ok}
use awg_portal.Awg.{
  AwgParams, AwgSettings, is_zero, has_any_awg_params, emit_awg, physical_emit_awg,
  validate_interface_awg,
}
use awg_portal.Awg.Validation.{IsSupported, validate_iff}

has_any_awg_params_lem : (p : AwgParams) → has_any_awg_params p ≡ not (is_zero p)
unfolding has_any_awg_params is_zero
has_any_awg_params_lem p = ground arith

IsSupported-is_zero : (p : AwgParams) → IsSupported p → is_zero p ≢ true
unfolding is_zero
IsSupported-is_zero p s = ground arith

-- The interface and the physical interface, whose rules are written differently, take the same
-- decision for the same flag and parameters.
pub emit_awg-eq-physical_emit_awg : (i : AwgSettings) → emit_awg i ≡ physical_emit_awg i
unfolding emit_awg physical_emit_awg
emit_awg-eq-physical_emit_awg i = ground (arith, has_any_awg_params_lem i.params)

-- The check in `Interface.Validate` passes exactly if AWG is off or the parameters are supported; an
-- interface that passes emits its parameters exactly if AWG is on.
pub validate_interface_awg_iff :
    (i : AwgSettings)
    → ((validate_interface_awg i ≡ ok tt) ↔ (i.enabled ≡ true → IsSupported i.params))
      × (validate_interface_awg i ≡ ok tt → emit_awg i ≡ i.enabled)
unfolding validate_interface_awg emit_awg
validate_interface_awg_iff i =
    ground
      (arith, has_any_awg_params_lem i.params, IsSupported-is_zero i.params, validate_iff i.params)
