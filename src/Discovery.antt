-- ===== src/Discovery.antt =====
-- The models that a backend offers: `discover` of internal/backend/backend.go. The HTTP request and the
-- decoding of its answer are inputs.
pub mod Listed
pub mod Offered
use relay_local.Prelude.{
  ℕ, Bool, true, false, not, ◌&&◌, ◌||◌, Option, none, some, List, [], ◌∷◌, String, length,
  if◌then◌else◌, ltb, ◌==◌, str_eq,
}
use relay_local.Protocol.{Model, Backend, has_key, max_request_bytes}
use relay_local.Config
use Prim.Native.String.{◌++◌ as append}

pub record OllamaModel : Type 0 where
  pub name : String
  pub digest : String
  pub remote_model : String
  pub remote_host : String

-- The functions of encoding/json that read the two kinds of lists; `none` is an error.
pub record Listings : Type 0 where
  pub ollama : List ℕ → Option (List OllamaModel)
  pub proxy : List ℕ → Option (List String)

-- What comes of the request: no answer but an error, or a status with a body that may break off.
pub data Reply : Type 0 where
  unreachable : String → Reply
  replied : ℕ → Option (List ℕ) → Reply

unfoldable pub advertised : Config.Backend → Backend
advertised c = record {
  id = c.id;
  kind = c.kind;
  source = if str_eq c.kind "ollama" then "local" else "provider";
  ready = false;
  capacity = c.concurrency;
  available = c.concurrency;
  models = [];
}

abbrev pub model_of : Config.Backend → String → String → Model
model_of c name digest = record { id = append c.id (append "/" name); name = name; digest = digest }

-- The conditions of the two loops, where the map `seen` has the keys `seen`.
unfoldable pub takes_ollama : Config.Backend → Bool → List String → OllamaModel → Bool
takes_ollama c include_all seen m =
    (include_all || has_key c.models m.name)
    && (not (has_key seen m.name)
        && (not (str_eq m.digest "") && (str_eq m.remote_model "" && str_eq m.remote_host "")))

unfoldable pub takes_proxy : Config.Backend → Bool → List String → String → Bool
takes_proxy c include_all seen id = (include_all || has_key c.models id) && not (has_key seen id)

unfoldable pub ollama_models : Config.Backend → Bool → List String → List OllamaModel → List Model
ollama_models c include_all seen [] = []
ollama_models c include_all seen (m ∷ ms) =
    let kept = model_of c m.name m.digest ∷ ollama_models c include_all (m.name ∷ seen) ms in
    let skipped = ollama_models c include_all seen ms in
    if takes_ollama c include_all seen m then kept else skipped

unfoldable pub proxy_models : Config.Backend → Bool → List String → List String → List Model
proxy_models c include_all seen [] = []
proxy_models c include_all seen (id ∷ ids) =
    let kept = model_of c id "" ∷ proxy_models c include_all (id ∷ seen) ids in
    let skipped = proxy_models c include_all seen ids in
    if takes_proxy c include_all seen id then kept else skipped

abbrev pub is_some_model : List Model → Bool
is_some_model [] = false
is_some_model (m ∷ ms) = true

abbrev pub with_models : Config.Backend → List Model → Backend
with_models c ms = record (advertised c) { models = ms; ready = is_some_model ms }

unfoldable pub from_ollama :
    Config.Backend → Bool → Option (List OllamaModel) → Backend × Option String
from_ollama c include_all none = (advertised c, some "invalid Ollama catalog")
from_ollama c include_all (some ms) = (with_models c (ollama_models c include_all [] ms), none)

unfoldable pub from_proxy : Config.Backend → Bool → Option (List String) → Backend × Option String
from_proxy c include_all none = (advertised c, some "invalid CLIProxyAPI catalog")
from_proxy c include_all (some ids) = (with_models c (proxy_models c include_all [] ids), none)

unfoldable pub from_body :
    Listings → Config.Backend → Bool → Option (List ℕ) → Backend × Option String
from_body json c include_all none = (advertised c, some "invalid discovery response")
from_body json c include_all (some body) =
    if ltb max_request_bytes (length body)
    then (advertised c, some "invalid discovery response")
    else if str_eq c.kind "ollama"
    then from_ollama c include_all (json.ollama body)
    else from_proxy c include_all (json.proxy body)

-- The backend that is announced, and the error that is logged.
unfoldable pub discover : Listings → Config.Backend → Bool → Reply → Backend × Option String
discover json c include_all (unreachable e) = (advertised c, some e)
discover json c include_all (replied status body) =
    if status == 200
    then from_body json c include_all body
    else (advertised c, some "backend discovery rejected; check service and credentials")
