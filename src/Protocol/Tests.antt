-- ===== src/Protocol/Tests.antt =====
-- Catalogues and messages at concrete inputs.
use relay_local.Prelude.{◌≡◌, refl, none, some, [], ◌∷◌, ◌↔◌}
use relay_local.Samples.Hosts.{gpu, lax, start, first_chunk}
use relay_local.Protocol.{
  validate, valid_usage, kind_error, attempt_error, validate_catalog, validate_backends,
  validate_models, backend_error, source_error, model_error,
}
use relay_local.Protocol.Catalog.{IsCatalog, validate_catalog_iff}

test-catalog : validate_catalog (gpu ∷ []) ≡ none
unfolding validate_catalog validate_backends validate_models backend_error source_error model_error
test-catalog = refl

test-catalog_twice : validate_catalog (gpu ∷ gpu ∷ []) ≡ some "invalid backend"
unfolding validate_catalog validate_backends validate_models backend_error source_error model_error
test-catalog_twice = refl

test-message : validate lax start ≡ none
unfolding validate valid_usage kind_error attempt_error
test-message = refl

test-message_empty :
    validate lax (record first_chunk { bytes = [] }) ≡ some "invalid response chunk"
unfolding validate valid_usage kind_error attempt_error
test-message_empty = refl

validate_catalog_iff_example : (validate_catalog (gpu ∷ []) ≡ none) ↔ IsCatalog (gpu ∷ [])
validate_catalog_iff_example = validate_catalog_iff (gpu ∷ [])
