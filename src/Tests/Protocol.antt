-- ===== src/Tests/Protocol.antt =====
-- Sequence numbers, error codes, leaf paths and roles.
use lumencast_py.Prelude.{
  String, ◌≡◌, ◌↔◌, ◌⊎◌, refl, true, false, List, [], ◌∷◌, ◌++◌, some, none, arith, any_of,
}
use lumencast_py.Prelude.Text.{strip_suffix}
use lumencast_py.Json.{ℤ, pos, negsuc}
use lumencast_py.Protocol.Sequence.{SequenceTracker, observe_server}
use lumencast_py.Protocol.Sequence.Stream.{applied, Consecutive, applied-Consecutive}
use lumencast_py.Protocol.LeafPath.{split, has_prefix, is_reserved, namespace}
use lumencast_py.Protocol.LeafPath.Segments.{has_prefix-segments}
use lumencast_py.Protocol.Types.{Role}
use lumencast_py.Server.Role.{role_can_write, pattern_matches}
use lumencast_py.Server.Role.Authority.{Under, role_can_write-Under}

abbrev at_five : SequenceTracker
at_five = record { cur = 5 }

-- a replay, the next frame, an older one, then a gap
abbrev received : List ℤ
received = pos 5 ∷ pos 6 ∷ pos 1 ∷ negsuc 0 ∷ pos 7 ∷ pos 9 ∷ pos 8 ∷ []

applied_run : applied at_five received ≡ pos 6 ∷ pos 7 ∷ []
unfolding applied observe_server
applied_run = refl

applied-Consecutive_example : Consecutive 5 (applied at_five received)
applied-Consecutive_example = applied-Consecutive at_five received (omega arith)

split_run : split "players.0.name" ≡ "players" ∷ "0" ∷ "name" ∷ []
unfolding split
split_run = refl

paths_run :
    (has_prefix "players.0" "players" ≡ true)
    × (has_prefix "playerstats.0" "players" ≡ false)
    × (is_reserved "__test.x" ≡ true)
    × (namespace "show.title" ≡ "show")
unfolding has_prefix is_reserved namespace
paths_run = (refl, refl, refl, refl)

has_prefix-segments_example :
    (has_prefix "__inputs.title" "__inputs" ≡ true)
    ↔ ((rest : List String) × (split "__inputs.title" ≡ split "__inputs" ++ rest))
has_prefix-segments_example = has_prefix-segments "__inputs.title" "__inputs"

scoped_write : role_can_write Role.service "__inputs.a.b" ("__inputs.a.*" ∷ []) ≡ true
unfolding role_can_write pattern_matches strip_suffix has_prefix any_of
scoped_write = refl

role_can_write-Under_example :
    (((◌≡◌ {A = Role} Role.service Role.operator) ⊎ (◌≡◌ {A = Role} Role.service Role.service))
      × Under "__inputs" "__inputs.a.b")
    ⊎ ((◌≡◌ {A = Role} Role.service Role.test) × Under "__test" "__inputs.a.b")
role_can_write-Under_example =
    role_can_write-Under Role.service "__inputs.a.b" ("__inputs.a.*" ∷ []) scoped_write

strip_run :
    (strip_suffix ".*" "__inputs.a.*" ≡ some "__inputs.a")
    × (strip_suffix ".*" "__inputs.sc*" ≡ none)
unfolding strip_suffix
strip_run = (refl, refl)
