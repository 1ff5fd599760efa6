-- ===== src/Adapters/Persistence/RoundTrip.antt =====
-- A runtime state that is stored is read back, and nothing else is read as it.
use pm.Base.{
  ◌≡◌, refl, sym, ap, ◌∙◌, subst, Text, Result-cases, ◌↔◌, Option, none, some, ok, err,
  Option-cases, inl, inr, arith,
}
use pm.Adapters.Persistence.{
  IdentityDto, StateDto, unknown_status, decode_state, decoded, checked, encode_state,
  encode_runtime, encode_optional_identity, decode_optional_identity, encode_identity,
  decode_identity,
}
use pm.Entities.Runtime.{ProcessIdentity, ProcessRuntime, validate_consistency}
use pm.Entities.Spec.{AppSpec}
use pm.Entities.Status.{ProcessStatus}
use pm.Entities.Status.{parse as parse_status}
use pm.Entities.Status.RoundTrip.{parse-as_str, as_str_of_parse}
use pm.Usecases.Record.{ProcessRecord}

decode_identity-encode :
    (i : Option ProcessIdentity) → decode_optional_identity (encode_optional_identity i) ≡ i
unfolding decode_optional_identity encode_optional_identity decode_identity encode_identity
decode_identity-encode none = refl
decode_identity-encode (some i) = refl

encode_identity-decode :
    (i : Option IdentityDto) → encode_optional_identity (decode_optional_identity i) ≡ i
unfolding decode_optional_identity encode_optional_identity decode_identity encode_identity
encode_identity-decode none = refl
encode_identity-decode (some i) = refl

abbrev with_identity : ProcessRuntime → Option ProcessIdentity → ProcessRuntime
with_identity r identity = record r { identity = identity }

decoded-encode : (r : ProcessRecord) → decoded r.runtime.status (encode_state r) ≡ r.runtime
unfolding decoded encode_state encode_runtime
decoded-encode r = ap (with_identity r.runtime) (decode_identity-encode r.runtime.identity)

checked-ok : (r : ProcessRuntime) → validate_consistency r ≡ ok tt → checked r ≡ ok r
unfolding checked
checked-ok r h = rw (h, checked) refl

checked_of_ok :
    (r : ProcessRuntime) {r' : ProcessRuntime}
    → checked r ≡ ok r'
    → (r ≡ r') × (validate_consistency r ≡ ok tt)
unfolding checked
checked_of_ok r h = elim (Result-cases (validate_consistency r)) [
  | inl (_, e) ↦ (ground (arith, h, e), e)
  | inr (_, e) ↦ ground (arith, h, e)
]

abbrev with_parts : StateDto → Text → Option IdentityDto → StateDto
with_parts dto status identity = record dto {
  runtime = record dto.runtime { status = status; identity = identity };
}

encode-decoded :
    (spec : AppSpec) (dto : StateDto) (status : ProcessStatus)
    → parse_status dto.runtime.status ≡ some status
    → encode_state (record { spec = spec; runtime = decoded status dto }) ≡ dto
unfolding decoded encode_state encode_runtime
encode-decoded spec dto status h =
    ap
      (λ t.
        with_parts dto t (encode_optional_identity (decode_optional_identity dto.runtime.identity)))
      (sym (as_str_of_parse dto.runtime.status status h))
    ∙ ap (with_parts dto dto.runtime.status) (encode_identity-decode dto.runtime.identity)

-- A record whose runtime state is consistent is read back from what is stored of it.
pub decode_state-encode_state :
    (r : ProcessRecord)
    → validate_consistency r.runtime ≡ ok tt
    → decode_state (encode_state r) ≡ ok r.runtime
unfolding decode_state encode_state encode_runtime
decode_state-encode_state r consistent =
    rw (parse-as_str r.runtime.status, decode_state)
      (ap checked (decoded-encode r) ∙ checked-ok r.runtime consistent)

decode_state_of_ok :
    (spec : AppSpec) (dto : StateDto) (r : ProcessRuntime)
    → decode_state dto ≡ ok r
    → (dto ≡ encode_state (record { spec = spec; runtime = r })) × (validate_consistency r ≡ ok tt)
unfolding decode_state
decode_state_of_ok spec dto r h = elim (Option-cases (parse_status dto.runtime.status)) [
  | inl e ↦
      let h' : err (unknown_status dto.name dto.runtime.status) ≡ ok r =
        rw (e, decode_state) at h in
      ground arith
  | inr (status, e) ↦
      let h' : checked (decoded status dto) ≡ ok r = rw (e, decode_state) at h in
      let (same, consistent) = checked_of_ok (decoded status dto) h' in
      (
        sym (encode-decoded spec dto status e)
            ∙ ap (λ q. encode_state (record { spec = spec; runtime = q })) same,
        subst (λ q. validate_consistency q ≡ ok tt) same consistent,
      )
]

-- A stored state is read as `r` exactly when it is what is stored of a record with `r`, and `r` is
-- consistent.
pub decode_state_iff :
    (spec : AppSpec) (dto : StateDto) (r : ProcessRuntime)
    → (decode_state dto ≡ ok r) ↔ (
        (dto ≡ encode_state (record { spec = spec; runtime = r }))
        × (validate_consistency r ≡ ok tt))
decode_state_iff spec dto r = (
  decode_state_of_ok spec dto r,
  λ (same, consistent). ap decode_state same ∙ decode_state-encode_state _ consistent,
)
