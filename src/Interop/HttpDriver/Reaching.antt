-- ===== src/Interop/HttpDriver/Reaching.antt =====
-- The HTTP client that reaches the control plane of a server.
use Prim.Native.String.{◌++◌ as cat}
use lumencast_py.Prelude.{String, ◌≡◌, true, none, some, str_eq, arith, eq_iff, if◌then◌else◌}
use lumencast_py.Json.{text, obj, end, field, Result, ok, raise}
use lumencast_py.Json.Builtins.{Builtins}
use lumencast_py.Interop.ControlPlane
use lumencast_py.Interop.ControlPlane.{
  Plane, Response, problem, content, no_content, Handled, bundle_specs, scene_name, bundle_name,
  effective_id, dict_or_empty, state_or_defaults, cleared,
}
use lumencast_py.Interop.HttpDriver.{Http, Answer}

-- The framework's answer to what a handler gives back; an exception is a server error.
abbrev pub answer_of : Result Response → Answer
answer_of (ok (problem status code)) = record {
  status = status;
  body = some (obj (field "code" (text code) end));
}
answer_of (ok (content v)) = record { status = 200; body = some v }
answer_of (ok no_content) = record { status = 204; body = none }
answer_of (raise e) = record { status = 500; body = none }

abbrev pub respond : Handled → Result Answer × Plane
respond (r, pl) = (ok (answer_of r), pl)

abbrev pub not_found : Answer
not_found = record { status = 404; body = none }

-- The client that reaches the control plane of a server at `control_url`.
abbrev pub reaching : Builtins → String → String → Http Plane
reaching py control_url ws_url = record {
  get = λ url pl.
      if str_eq url (cat control_url "/test/health")
      then ok (answer_of (ok ControlPlane.health))
      else if str_eq url (cat control_url "/test/state")
      then ok (answer_of (ok (ControlPlane.state pl)))
      else ok not_found;
  post = λ url body pl.
      if str_eq url (cat control_url "/test/setup")
      then respond (ControlPlane.setup py ws_url body pl)
      else if str_eq url (cat control_url "/test/emit")
      then respond (ControlPlane.emit py body pl)
      else if str_eq url (cat control_url "/test/reset")
      then respond (ControlPlane.reset pl)
      else (ok not_found, pl);
}

pub url_same : (s : String) → str_eq s s ≡ true
url_same s = ground (arith, eq_iff s s)
