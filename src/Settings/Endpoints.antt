-- ===== src/Settings/Endpoints.antt =====
-- The ids of the endpoints in a draft, which the agent asks to be distinct.
use relay_local.Prelude.{
  ℕ, ◌+◌, ◌<◌, ◌≡◌, refl, ◌∙◌, Bool, true, false, not, ◌&&◌, ◌||◌, List, [], ◌∷◌, ◌++◌, String,
  length, length-append, str_eq, str_eq_iff, Bool-cases, inl, inr, arith,
}
use relay_local.Api.Server.{AgentConfig, BackendConfig}
use relay_local.Settings.{proxy_id, new_proxy, add_proxy}

unfoldable pub has_id : List BackendConfig → String → Bool
has_id [] id = false
has_id (b ∷ bs) id = str_eq b.id id || has_id bs id

unfoldable pub has_distinct_ids : List BackendConfig → Bool
has_distinct_ids [] = true
has_distinct_ids (b ∷ bs) = not (has_id bs b.id) && has_distinct_ids bs

has_id-append :
    (bs : List BackendConfig) (c : BackendConfig) (id : String)
    → has_id (bs ++ (c ∷ [])) id ≡ (has_id bs id || str_eq c.id id)
unfolding has_id
has_id-append [] c id = ground arith
has_id-append (b ∷ bs) c id = ground (arith, has_id-append bs c id)

str_eq_comm : (s t : String) → str_eq s t ≡ str_eq t s
str_eq_comm s t = ground (arith, str_eq_iff s t, str_eq_iff t s)

has_distinct_ids-append :
    (bs : List BackendConfig) (c : BackendConfig)
    → has_distinct_ids (bs ++ (c ∷ [])) ≡ (has_distinct_ids bs && not (has_id bs c.id))
unfolding has_distinct_ids has_id
has_distinct_ids-append [] c = ground arith
has_distinct_ids-append (b ∷ bs) c =
    ground (arith, str_eq_comm b.id c.id, has_id-append bs c b.id, has_distinct_ids-append bs c)

module _ (numbered : String → ℕ → String) where
  -- Different numbers are written differently.
  abbrev pub IsFaithful : Type 0
  IsFaithful = (s : String) (m n : ℕ) → numbered s m ≡ numbered s n → m ≡ n

  -- The ids are distinct, and no endpoint has a number above the number of endpoints.
  pub record IsNumbered (draft : AgentConfig) : Type 0 where
    pub distinct : has_distinct_ids draft.backends ≡ true
    pub below :
        (n : ℕ) → length draft.backends < n → has_id draft.backends (proxy_id numbered n) ≡ false

  other_number :
      IsFaithful → (m n : ℕ) → m < n → str_eq (proxy_id numbered m) (proxy_id numbered n) ≡ false
  other_number faithful m n h =
      elim (Bool-cases (str_eq (proxy_id numbered m) (proxy_id numbered n))) [
        | inl same ↦
            let e : m ≡ n =
              faithful "cliproxyapi-" m n
                ((str_eq_iff (proxy_id numbered m) (proxy_id numbered n)).0 same) in
            absurd (omega arith)
        | inr other ↦ other
      ]

  -- Where different numbers are written differently, adding an endpoint to a draft with distinct
  -- ids, none of which has a number above the number of endpoints, gives a draft of the same kind:
  -- so any number of endpoints can be added.
  pub add_proxy-IsNumbered :
      IsFaithful → (draft : AgentConfig) → IsNumbered draft → IsNumbered (add_proxy numbered draft)
  unfolding add_proxy
  add_proxy-IsNumbered faithful draft v =
      let bs = draft.backends in
      let next = length bs + 1 in
      let added = new_proxy numbered next in
      record {
        distinct =
            has_distinct_ids-append bs added ∙ rw (v.distinct, v.below next (omega arith)) refl;
        below = λ n h.
            let above : length bs + 1 < n = omega (arith, length-append bs (added ∷ [])) in
            has_id-append bs added (proxy_id numbered n)
            ∙ rw (v.below n (omega arith), other_number faithful next n (omega arith)) refl;
      }

  -- An endpoint that has the next number already gets a namesake.
  pub add_proxy-collides :
      (draft : AgentConfig)
      → has_id draft.backends (proxy_id numbered (length draft.backends + 1)) ≡ true
      → has_distinct_ids (add_proxy numbered draft).backends ≡ false
  unfolding add_proxy
  add_proxy-collides draft h =
      has_distinct_ids-append draft.backends (new_proxy numbered (length draft.backends + 1))
      ∙ rw h (ground arith)
