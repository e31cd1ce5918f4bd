-- ===== src/Protocol/Frames.antt =====
-- protocol/frames.py: the typed frames. A field that the codec fills with whatever stood in the
-- envelope is a JSON value, `null` where Python has None; the others have the type they are
-- coerced to.
use lumencast_py.Prelude.{String, Bool, Option, List}
use lumencast_py.Prelude.Dict.{Dict}
use lumencast_py.Json.{ℤ, Float, Json}

pub data TransitionKind : Type 0 where
  tween spring snap : TransitionKind

pub data Easing : Type 0 where
  linear ease_in ease_out ease_in_out : Easing

pub record TransitionSpec : Type 0 where
  pub kind : TransitionKind
  pub duration_ms : Option ℤ
  pub easing : Option Easing
  pub stiffness : Option Float
  pub damping : Option Float

pub record Cause : Type 0 where
  pub source : String
  pub input_id : Json

pub record SceneTransition : Type 0 where
  pub kind : String
  pub duration_ms : Option ℤ

pub record Patch : Type 0 where
  pub path : String
  pub value : Json
  pub transition : Option TransitionSpec

pub record Snapshot : Type 0 where
  pub scene_id : Json
  pub scene_version : Json
  pub state : Dict Json
  pub seq : ℤ
  pub ts : Json

pub record Delta : Type 0 where
  pub patches : List Patch
  pub seq : ℤ
  pub ts : Json
  pub cause : Option Cause

pub record SceneChanged : Type 0 where
  pub scene_id : Json
  pub scene_version : Json
  pub seq : ℤ
  pub ts : Json
  pub from_scene_id : Json
  pub transition : Option SceneTransition

pub record Error : Type 0 where
  pub code : Json
  pub message : Json
  pub recoverable : Bool
  pub seq : ℤ
  pub ts : Json
  pub retry_after_ms : ℤ
  pub path : Json

pub record Subscribe : Type 0 where
  pub token : Json
  pub scene : Json
  pub session : Json
  pub since_sequence : Option ℤ

pub record Input : Type 0 where
  pub patches : List Patch
  pub client_msg_id : Json

-- `ping` and `pong` carry their nonce.
pub data ClientFrame : Type 0 where
  subscribe : Subscribe → ClientFrame
  input : Input → ClientFrame
  ping pong : Json → ClientFrame
  unsubscribe : ClientFrame

pub data ServerFrame : Type 0 where
  snapshot : Snapshot → ServerFrame
  delta : Delta → ServerFrame
  scene_changed : SceneChanged → ServerFrame
  error : Error → ServerFrame
  pong ping : Json → ServerFrame
