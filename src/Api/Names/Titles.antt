-- ===== src/Api/Names/Titles.antt =====
-- A runtime that has an id has a title.
use relay_local.Prelude.{
  ◌≡◌, sym, ap, ◌∙◌, false, Option, none, some, String, if◌then◌else◌, str_eq, str_eq_iff,
  Bool-cases, inl, inr,
}
use relay_local.Api.{lookup}
use relay_local.Api.Server.{Backend, BackendConfig, AgentConfig}
use relay_local.Api.Names.{
  kind_names, text_or, kind_name, configured_in, own_title, title_of, backend_title,
}

pub text_or_nonempty :
    (t : Option String) (fallback : String)
    → str_eq fallback "" ≡ false
    → str_eq (text_or t fallback) "" ≡ false
text_or_nonempty none fallback h = h
text_or_nonempty (some s) fallback h = elim (Bool-cases (str_eq s "")) [
  | inl blank ↦ rw blank h
  | inr full ↦ rw full full
]

kind_name_nonempty : (kind : String) → str_eq kind "" ≡ false → str_eq (kind_name kind) "" ≡ false
unfolding kind_name
kind_name_nonempty kind h = text_or_nonempty (lookup kind_names kind) kind h

-- The product name if the id is the kind, and else the id.
named_nonempty :
    (id kind : String)
    → str_eq id "" ≡ false
    → str_eq (if str_eq id kind then kind_name kind else id) "" ≡ false
named_nonempty id kind h = elim (Bool-cases (str_eq id kind)) [
  | inl same ↦
      rw same
        (kind_name_nonempty kind (ap (λ s. str_eq s "") (sym ((str_eq_iff id kind).0 same)) ∙ h))
  | inr other ↦ rw other h
]

title_of_nonempty :
    (b : Backend) (c : Option BackendConfig)
    → str_eq b.id "" ≡ false
    → str_eq (title_of b c) "" ≡ false
unfolding title_of
title_of_nonempty b none h = named_nonempty b.id b.kind h
title_of_nonempty b (some c) h =
    text_or_nonempty c.label (own_title b (some c))
      (named_nonempty b.id (text_or (some b.kind) c.kind) h)

-- Whatever the configuration says of a runtime, and also where it does not know it, the title is not
-- empty if the id is not.
pub backend_title_nonempty :
    (b : Backend) (config : Option AgentConfig)
    → str_eq b.id "" ≡ false
    → str_eq (backend_title b config) "" ≡ false
unfolding backend_title
backend_title_nonempty b config h = title_of_nonempty b (configured_in config b.id) h
