-- ===== src/Interop/HttpDriver/Health.antt =====
-- interop/http_driver.py and interop/control_plane.py: the health check against the endpoint.
use Prim.Native.String.{◌++◌ as cat}
use lumencast_py.Prelude.{String, ◌≡◌, refl}
use lumencast_py.Prelude.Dict
use lumencast_py.Json.{to_dict, ok}
use lumencast_py.Json.Builtins.{Builtins}
use lumencast_py.Interop.ControlPlane.{Plane}
use lumencast_py.Interop.HttpDriver.{HttpDriver, health_check}
use lumencast_py.Interop.HttpDriver.Reaching.{reaching, url_same}

-- A driver at the URL of a control plane finds it healthy, in whatever state the server is.
pub health_check-reaching :
    (py : Builtins) (drv : HttpDriver) (ws_url : String) (pl : Plane)
    → health_check (reaching py drv.control_url ws_url) py drv pl ≡ ok tt
unfolding health_check to_dict Dict.get
health_check-reaching py drv ws_url pl = rw (url_same (cat drv.control_url "/test/health")) refl
