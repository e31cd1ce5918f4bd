-- ===== src/Interop/HttpDriver/Healthy.antt =====
-- interop/http_driver.py: the answer that `health_check` accepts.
use Prim.Native.String.{◌++◌ as cat}
use lumencast_py.Prelude.{
  ◌≡◌, ◌⊎◌, Bool, true, false, Option, none, some, ◌==◌, eq_iff, arith, inl, inr, refl,
}
use lumencast_py.Prelude.Dict
use lumencast_py.Json.{
  Float, Json, null, bool, int, pos, negsuc, real, text, arr, obj, Fields, to_dict, Result, ok,
  raise, ◌>>=◌,
}
use lumencast_py.Json.Builtins.{Builtins}
use lumencast_py.Conformance.Match.{float_eq}
use lumencast_py.Interop.HttpDriver.{
  Answer, runtime_error, Http, HttpDriver, health_check, check_health, check_status, json_of, is_ok,
  equals_one,
}

-- what Python takes for 1: the number, true, or a float that is equal to it
abbrev pub IsOne : Builtins → Json → Type 0
IsOne py v =
    (v ≡ int (pos 1))
    ⊎ (v ≡ bool true)
    ⊎ ((x : Float) × (one : Float) × (v ≡ real x)
        × (py.float_of_int (pos 1) ≡ some one)
        × (float_eq py x one ≡ true))

-- The answer has the status 200, and its body is an object whose status is ok and whose version is 1.
pub record Healthy (py : Builtins) (r : Result Answer) : Type 0 where
  pub answer : Answer
  pub fields : Fields
  pub version : Json
  pub came : r ≡ ok answer
  pub status_ok : answer.status ≡ 200
  pub body_object : answer.body ≡ some (obj fields)
  pub status : Dict.get "status" (to_dict fields) ≡ some (text "ok")
  pub versioned : Dict.get "control_plane_version" (to_dict fields) ≡ some version
  pub is_one : IsOne py version

module _ {S : Type 0} (http : Http S) (py : Builtins) where
  some_ok : (v : Option Json) → is_ok v ≡ true → v ≡ some (text "ok")
  some_ok (some (text s)) h = rw ((eq_iff s "ok").0 h) refl
  some_ok none h = cc h
  some_ok (some null) h = cc h
  some_ok (some (bool b)) h = cc h
  some_ok (some (int n)) h = cc h
  some_ok (some (real x)) h = cc h
  some_ok (some (arr xs)) h = cc h
  some_ok (some (obj fs)) h = cc h

  real_one :
      (x : Float) (f : Option Float)
      → py.float_of_int (pos 1) ≡ f
      → (elim f [ none ↦ false | some one ↦ float_eq py x one ]) ≡ true
      → IsOne py (real x)
  real_one x none e h = cc h
  real_one x (some one) e h = inr (inr (x, one, refl, e, h))

  some-IsOne :
      (v : Option Json) → equals_one http py v ≡ true → (w : Json) × (v ≡ some w) × IsOne py w
  some-IsOne (some (int (pos n))) h =
      let t : (n == 1) ≡ true = h in
      let same : n ≡ 1 = ground (arith, t) in (int (pos n), refl, inl (rw same refl))
  some-IsOne (some (bool b)) h = (bool b, refl, inr (inl (rw h refl)))
  some-IsOne (some (real x)) h = (real x, refl, real_one x (py.float_of_int (pos 1)) refl h)
  some-IsOne (some (int (negsuc n))) h = cc h
  some-IsOne none h = cc h
  some-IsOne (some null) h = cc h
  some-IsOne (some (text s)) h = cc h
  some-IsOne (some (arr xs)) h = cc h
  some-IsOne (some (obj fs)) h = cc h

  IsOne-equals_one : (w : Json) → IsOne py w → equals_one http py (some w) ≡ true
  IsOne-equals_one w (inl e) = rw e refl
  IsOne-equals_one w (inr (inl e)) = rw e refl
  IsOne-equals_one w (inr (inr (x, one, e, f, same))) = rw e (rw f same)

  both : (a b : Bool) → check_status http py a b ≡ ok tt → (a ≡ true) × (b ≡ true)
  both true true h = (refl, refl)
  both true false h = cc h
  both false b h = cc h

  body-Healthy :
      (a : Answer) (r : Result Answer) (b : Option Json)
      → r ≡ ok a
      → a.status ≡ 200
      → a.body ≡ b
      → (do v ← json_of b; check_health http py v) ≡ ok tt
      → Healthy py r
  body-Healthy a r (some (obj fs)) came st e h =
      let (s, o) = both _ _ h in
      let (w, v, one) = some-IsOne _ o in
      record {
        answer = a;
        fields = fs;
        version = w;
        came = came;
        status_ok = st;
        body_object = e;
        status = some_ok _ s;
        versioned = v;
        is_one = one;
      }
  body-Healthy a r none came st e h = cc h
  body-Healthy a r (some null) came st e h = cc h
  body-Healthy a r (some (bool b)) came st e h = cc h
  body-Healthy a r (some (int n)) came st e h = cc h
  body-Healthy a r (some (real x)) came st e h = cc h
  body-Healthy a r (some (text s)) came st e h = cc h
  body-Healthy a r (some (arr xs)) came st e h = cc h

  module _ (drv : HttpDriver) (s : S) where
    abbrev asked : Result Answer
    asked = http.get (cat drv.control_url "/test/health") s

    checked :
        (a : Answer) (b : Bool)
        → (a.status == 200) ≡ b
        → (elim b [
          | false ↦ raise runtime_error
          | true ↦ (do v ← json_of a.body; check_health http py v)
        ])
          ≡ ok tt
        → Healthy py (ok a)
    checked a true e h = body-Healthy a (ok a) a.body refl (ground (arith, e)) refl h
    checked a false e h = cc h

    answered :
        (r : Result Answer)
        → (do
          a ← r
          elim (a.status == 200) [
            | false ↦ raise runtime_error
            | true ↦ (do v ← json_of a.body; check_health http py v)
          ])
          ≡ ok tt
        → Healthy py r
    answered (raise e) h = cc h
    answered (ok a) h = checked a (a.status == 200) refl h

    pub health_check-Healthy : health_check http py drv s ≡ ok tt → Healthy py asked
    unfolding health_check
    health_check-Healthy h = answered asked h

    pub Healthy-health_check : Healthy py asked → health_check http py drv s ≡ ok tt
    unfolding health_check
    Healthy-health_check h =
        rw
          (
            h.came,
            h.status_ok,
            h.body_object,
            h.status,
            h.versioned,
            IsOne-equals_one h.version h.is_one,
          )
          refl
