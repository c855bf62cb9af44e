-- ===== src/Session/InputThread/Permitted.antt =====
-- Input acts only with the permission for it, on the display that is shown, by the one path.
use remote_x.Prelude.{◌≡◌, ◌≢◌, true, false, List, [], some, get_elem?, All, Has, ◌⊎◌}
use remote_x.Common.Event.{InputEvent, DisplayInfo}
use remote_x.Session.InputThread.{
  InputShared, Action, sink_apply, sink_release_all, elevated_apply, is_move, allowed, Step, take,
  tag,
}

-- An action on the display that is active, for an event that the session allows, by the elevated path
-- exactly if there is one that is alive.
unfoldable pub IsPermitted : InputShared × Action → Type 0
IsPermitted (s, sink_release_all) = Unit
IsPermitted (s, sink_apply ev d) =
    (allowed s ev ≡ true) × (get_elem? s.displays s.active ≡ some d) × (s.elevated ≢ some true)
IsPermitted (s, elevated_apply ev d) =
    (allowed s ev ≡ true) × (get_elem? s.displays s.active ≡ some d) × (s.elevated ≡ some true)

-- A release reaches the injector, and the elevated path besides if there is one that is alive. Any
-- other event releases nothing, and acts if it is allowed, is no move and a display is active.
unfoldable pub Releases : InputShared → InputEvent → List Action → Type 0
Releases s InputEvent.release_all acts =
    Has sink_release_all acts
    × ((d : DisplayInfo)
        → get_elem? s.displays s.active ≡ some d
        → s.elevated ≡ some true
        → Has (elevated_apply InputEvent.release_all d) acts)
Releases s ev acts =
    (¬ Has sink_release_all acts)
    × ((d : DisplayInfo)
        → is_move ev ≡ false
        → allowed s ev ≡ true
        → get_elem? s.displays s.active ≡ some d
        → Has (elevated_apply ev d) acts ⊎ Has (sink_apply ev d) acts)

-- What a step may do: an event acts as the session allows, and nothing else acts.
unfoldable pub IsAnswered : InputShared × Step × List Action → Type 0
IsAnswered (s, take it waited took, acts) = All IsPermitted (tag s acts) × Releases s it.ev acts
IsAnswered (s, c, acts) = acts ≡ []
