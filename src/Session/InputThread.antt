-- ===== src/Session/InputThread.antt =====
-- crates/session/src/input_thread.rs: the host's input thread. Waiting moves collapse into the
-- newest one, moves that are out of order and input without permission are dropped, and the rest
-- goes to the elevated path or to the ordinary injector.
pub mod Coalesce
pub mod Permitted
mod Tests
use remote_x.Prelude.{
  ℕ, suc, ◌+◌, ◌-◌, ◌*◌, ◌/◌, ◌%◌, ◌^◌, Bool, true, false, List, [], ◌∷◌, ◌++◌, map, Option, none,
  some, ltb, leb, nat_beq, if◌then◌else◌, get_elem?,
}
use remote_x.Common.Event.{MouseButton, InputEvent, DisplayInfo}

-- `arrived` only feeds the wait that `handle` is given.
pub record InboundInput : Type 0 where
  pub seq : ℕ
  pub ev : InputEvent

abbrev pub u32 : ℕ
u32 = 2 ^ 32

unfoldable pub is_move : InputEvent → Bool
is_move (InputEvent.mouse_move x y) = true
is_move e = false

unfoldable pub is_mouse : InputEvent → Bool
is_mouse (InputEvent.mouse_move x y) = true
is_mouse (InputEvent.mouse_button b down) = true
is_mouse (InputEvent.wheel dx dy) = true
is_mouse e = false

unfoldable pub is_keyboard : InputEvent → Bool
is_keyboard (InputEvent.key scan ext down) = true
is_keyboard (InputEvent.text us) = true
is_keyboard e = false

-- `(a.wrapping_sub(b) as i32) < 0`, in 32-bit words
unfoldable pub seq_before : ℕ → ℕ → Bool
seq_before a b = leb (2 ^ 31) ((a + u32 - b) % u32)

-- The release build's arithmetic wraps around.
unfoldable pub smooth : ℕ → ℕ → ℕ
smooth old sample_us = if nat_beq old 0 then sample_us else (old * 7 + sample_us) % u32 / 8

-- One round of the loop in `coalesce_moves`: replace the last entry of `out`, or push.
unfoldable pub collapse : List InboundInput → InboundInput → List InboundInput × ℕ
unfolding is_move
collapse [] it = (it ∷ [], 0)
collapse (p ∷ []) it =
    if (if is_move it.ev then is_move p.ev else false) then (it ∷ [], 1) else (p ∷ it ∷ [], 0)
collapse (p ∷ q ∷ out) it = let (rest, n) = collapse (q ∷ out) it in (p ∷ rest, n)

unfoldable pub coalesce_from : List InboundInput → ℕ → List InboundInput → List InboundInput × ℕ
coalesce_from out dropped [] = (out, dropped)
coalesce_from out dropped (it ∷ items) =
    let (out', n) = collapse out it in coalesce_from out' (dropped + n) items

unfoldable pub coalesce_moves : List InboundInput → List InboundInput × ℕ
coalesce_moves items = coalesce_from [] 0 items

-- InputShared as far as the session sets it. `elevated` says whether the elevated path is alive.
pub record InputShared : Type 0 where
  pub mouse : Bool
  pub keyboard : Bool
  pub displays : List DisplayInfo
  pub active : ℕ
  pub elevated : Option Bool
  pub elevated_lost : Bool

-- The thread's own state and the counters that only it writes.
pub record Thread : Type 0 where
  pub last_move_seq : ℕ
  pub stale_moves : ℕ
  pub applied_input_seq : ℕ
  pub queue_us : ℕ
  pub apply_us : ℕ

-- What the thread asks of the injector and of the elevated path.
pub data Action : Type 0 where
  sink_apply : InputEvent → DisplayInfo → Action
  sink_release_all : Action
  elevated_apply : InputEvent → DisplayInfo → Action

unfoldable pub allowed : InputShared → InputEvent → Bool
unfolding is_mouse is_keyboard
allowed s InputEvent.release_all = true
allowed s e = if is_mouse e then s.mouse else if is_keyboard e then s.keyboard else false

-- An elevated path that is no longer alive is given up, and the session is told.
unfoldable pub check_elevated : InputShared → InputShared
check_elevated s = elim s.elevated [
  | some false ↦ record s { elevated = none; elevated_lost = true }
  | some true ↦ s
  | none ↦ s
]

unfoldable pub perform : InputEvent → Option DisplayInfo → Option Bool → List Action
perform InputEvent.release_all (some d) (some e) =
    elevated_apply InputEvent.release_all d ∷ sink_release_all ∷ []
perform InputEvent.release_all (some d) none = sink_release_all ∷ []
perform InputEvent.release_all none e = sink_release_all ∷ []
perform ev (some d) (some e) = elevated_apply ev d ∷ []
perform ev (some d) none = sink_apply ev d ∷ []
perform ev none e = []

unfoldable pub acknowledge : ℕ → ℕ → ℕ → Thread → Thread
unfolding smooth
acknowledge seq queue_us apply_us t = if nat_beq seq 0 then t else record t {
  applied_input_seq = seq;
  queue_us = smooth t.queue_us queue_us;
  apply_us = smooth t.apply_us apply_us;
}

-- One event of a batch, with the microseconds that it waited and that its application took.
unfoldable pub handle :
    InboundInput → ℕ → ℕ → InputShared → Thread → List Action × InputShared × Thread
unfolding is_move seq_before allowed check_elevated perform acknowledge
handle it waited took s t =
    if (if is_move it.ev then seq_before it.seq t.last_move_seq else false)
    then ([], s, record t { stale_moves = t.stale_moves + 1 })
    else (let t' = if is_move it.ev then record t { last_move_seq = it.seq } else t in
        if allowed s it.ev
        then (let s' = check_elevated s in
            (
              perform it.ev (get_elem? s.displays s.active) s'.elevated,
              s',
              acknowledge it.seq waited took t',
            ))
        else ([], s, acknowledge it.seq waited 0 t'))

unfoldable pub set_elevated : Option Bool → InputShared → InputShared
set_elevated e s = record s { elevated = e; elevated_lost = false }

unfoldable pub take_elevated_lost : InputShared → Bool × InputShared
take_elevated_lost s = (s.elevated_lost, record s { elevated_lost = false })

unfoldable pub set_permissions : Bool → Bool → InputShared → InputShared
set_permissions m k s = record s { mouse = m; keyboard = k }

unfoldable pub set_displays : List DisplayInfo → ℕ → InputShared → InputShared
set_displays ds active s = record s { displays = ds; active = active }

unfoldable pub set_active : ℕ → InputShared → InputShared
set_active active s = record s { active = active }

-- What happens to the shared state and the thread, one step at a time: the session's calls, and an
-- event that the thread takes from its batch.
pub data Step : Type 0 where
  elevate : Option Bool → Step
  take_lost : Step
  permit : Bool → Bool → Step
  show : List DisplayInfo → ℕ → Step
  activate : ℕ → Step
  take : InboundInput → ℕ → ℕ → Step

unfoldable pub step : Step → InputShared → Thread → List Action × InputShared × Thread
unfolding handle set_elevated take_elevated_lost set_permissions set_displays set_active
step (elevate e) s t = ([], set_elevated e s, t)
step take_lost s t = ([], (take_elevated_lost s).1, t)
step (permit m k) s t = ([], set_permissions m k s, t)
step (show ds active) s t = ([], set_displays ds active s, t)
step (activate active) s t = ([], set_active active s, t)
step (take it waited took) s t = handle it waited took s t

abbrev pub tag : InputShared → List Action → List (InputShared × Action)
tag s [] = []
tag s (a ∷ acts) = (s, a) ∷ tag s acts

-- The steps of a run, each with the shared state that it finds and the actions that it takes.
unfoldable pub run : List Step → InputShared → Thread → List (InputShared × Step × List Action)
unfolding step
run [] s t = []
run (c ∷ cs) s t = let (acts, s1, t1) = step c s t in let rest = run cs s1 t1 in (s, c, acts) ∷ rest

-- The end of the thread: whatever is held is released.
unfoldable pub finish : InputShared → List Action
finish s = elim s.elevated [
  | none ↦ sink_release_all ∷ []
  | some e ↦ elim (get_elem? s.displays 0) [
    | none ↦ sink_release_all ∷ []
    | some d ↦ sink_release_all ∷ elevated_apply InputEvent.release_all d ∷ []
  ]
]
