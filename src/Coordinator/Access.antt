-- ===== src/Coordinator/Access.antt =====
-- Who may use a coordinator: the keys of `New`, `secure`, `authorize` and the beginning of `connect` of
-- internal/coordinator/coordinator.go. The variables of the environment are a function.
pub mod Distinct
pub mod Identity
mod Tests
use Prim.Native.Char.{code}
use relay_local.Prelude.{
  ℕ, Bool, true, false, not, ◌&&◌, ◌||◌, Option, none, some, List, [], ◌∷◌, String, foldl,
  if◌then◌else◌, ◌==◌, str_eq,
}
use relay_local.Protocol.{has_key}
use relay_local.Config.Urls.{Net, has_break}
use relay_local.Config.Listener.{Coordinator, validate_coordinator}

-- `config.Secret`, where an error is none.
unfoldable pub secret : (String → String) → String → Option String
secret environment name =
    let value = environment name in if str_eq value "" || has_break value then none else some value

abbrev pub key_entry :
    String → Bool → Option (List (String × String)) → String → Option (List (String × String))
key_entry id true rest key = none
key_entry id false none key = none
key_entry id false (some keys) key = some ((id, key) ∷ keys)

abbrev pub with_secret :
    String
    → List String
    → Option String
    → (String → Option (List (String × String)))
    → Option (List (String × String))
with_secret id seen none rest = none
with_secret id seen (some key) rest = key_entry id (has_key seen key) (rest key) key

-- The loop of `New`, where the map `seen` has the keys `seen`.
unfoldable pub host_keys :
    (String → String) → List String → List (String × String) → Option (List (String × String))
host_keys environment seen [] = some []
host_keys environment seen ((id, env) ∷ hosts) =
    with_secret id seen (secret environment env) λ key. host_keys environment (key ∷ seen) hosts

pub record Keys : Type 0 where
  pub buyer : String
  pub hosts : List (String × String)

abbrev pub with_hosts : String → Option (List (String × String)) → Option Keys
with_hosts buyer none = none
with_hosts buyer (some hosts) = some (record { buyer = buyer; hosts = hosts })

abbrev pub with_buyer : (String → String) → List (String × String) → Option String → Option Keys
with_buyer environment hosts none = none
with_buyer environment hosts (some buyer) =
    with_hosts buyer (host_keys environment (buyer ∷ []) hosts)

abbrev pub keys_of : (String → String) → Coordinator × Option String → Option Keys
keys_of environment (c, some e) = none
keys_of environment (c, none) =
    with_buyer environment c.hosts (secret environment c.buyer_token_env)

-- `New`, where an error is none.
unfoldable pub new_coordinator : Net → (String → String) → Coordinator → Option Keys
new_coordinator net environment c = keys_of environment (validate_coordinator net c)

-- What follows a prefix of a text.
unfoldable pub strip_prefix : String → String → Option String
strip_prefix String.[] s = some s
strip_prefix (String.◌∷◌ c p) String.[] = none
strip_prefix (String.◌∷◌ c p) (String.◌∷◌ d s) =
    let rest = strip_prefix p s in if code c == code d then rest else none

abbrev pub is_key : Option String → String → Bool
is_key none key = false
is_key (some got) key = str_eq got key

-- `keyMatches`, with the header `Authorization`.
unfoldable pub key_matches : String → String → Bool
key_matches authorization key = is_key (strip_prefix "Bearer " authorization) key

-- A request: its connection and its header. `remote` is none where the address does not parse, and
-- else says whether it is of the loopback.
pub record Request : Type 0 where
  pub is_tls : Bool
  pub remote : Option Bool
  pub authorization : String

abbrev pub is_local : Option Bool → Bool
is_local none = false
is_local (some b) = b

unfoldable pub secure : Request → Bool
secure r = if r.is_tls then true else is_local r.remote

-- The answer with an error, or what the request may go on as.
pub data Access : Type 0 where
  refused : ℕ → String → Access
  allowed : String → Access

-- `authorize`
unfoldable pub authorize : Keys → Request → Access
authorize keys r =
    if not (secure r)
    then refused 403 "tls_required"
    else if not (key_matches r.authorization keys.buyer)
    then refused 401 "unauthorized"
    else allowed ""

-- The loop over the map of the keys, in any order.
unfoldable pub host_of_key : String → List (String × String) → String
host_of_key authorization hosts =
    foldl (λ id h. if key_matches authorization h.1 then h.0 else id) "" hosts

-- `connect`, up to the upgrade of the connection.
unfoldable pub connect_as : Keys → Request → Access
connect_as keys r =
    let id = host_of_key r.authorization keys.hosts in
    if not (secure r)
    then refused 403 "tls_required"
    else if str_eq id ""
    then refused 401 "unauthorized"
    else allowed id
