-- ===== src/Input/Injector/Held.antt =====
-- Nothing stays held: what the records leave pressed is what the injector holds, and a release lets
-- go of all of it.
use remote_x.Prelude.{
  ℕ, ◌≡◌, refl, ap, subst, ◌∙◌, Bool, true, false, not, List, [], ◌∷◌, ◌++◌, map, arith,
  if◌then◌else◌, nat_beq, Option, none, some,
}
use remote_x.Prelude.Eq.{◌==◌, nat_eq, bool_eq, pair_eq, pair_beq_iff}
use remote_x.Map.{contains}
use remote_x.Map.Laws.{contains-without}
use remote_x.Common.Event.{MouseButton, left, right, middle, back, forward, InputEvent, DisplayInfo}
use remote_x.Input.Injector.{
  MouseFlags, left_down, left_up, right_down, right_up, middle_down, middle_up, x_down, x_up, Input,
  button_flags, button_id, button_of, Injector, new, add, release_key, release_button,
  release_records, type_text, encode_utf16, build, build_all,
}

-- What a system that acts on the records in order has pressed: a physical key, and a button.
unfoldable pub key_effect : ℕ × Bool → Input → Bool → Bool
key_effect k (Input.mouse f dx dy d) s = s
key_effect k (Input.key scan f) s =
    if f.scancode then (if k == (scan, f.extended) then not f.up else s) else s

-- The button that a mouse record is about, and whether it presses it.
unfoldable pub button_in : MouseFlags → ℕ → Option (MouseButton × Bool)
button_in left_down d = some (left, true)
button_in left_up d = some (left, false)
button_in right_down d = some (right, true)
button_in right_up d = some (right, false)
button_in middle_down d = some (middle, true)
button_in middle_up d = some (middle, false)
button_in x_down d =
    if nat_beq d 1 then some (back, true) else if nat_beq d 2 then some (forward, true) else none
button_in x_up d =
    if nat_beq d 1 then some (back, false) else if nat_beq d 2 then some (forward, false) else none
button_in f d = none

abbrev pub set_button : MouseButton → Option (MouseButton × Bool) → Bool → Bool
set_button b none s = s
set_button b (some (c, down)) s = if nat_beq (button_id c) (button_id b) then down else s

unfoldable pub button_effect : MouseButton → Input → Bool → Bool
unfolding button_in
button_effect b (Input.key scan f) s = s
button_effect b (Input.mouse f dx dy d) s = set_button b (button_in f d) s

unfoldable pub after {ℓ} : {A : Type ℓ} → (A → Input → Bool → Bool) → A → List Input → Bool → Bool
after effect a [] s = s
after effect a (r ∷ rs) s = after effect a rs (effect a r s)

after-append {ℓ} :
    {A : Type ℓ} (effect : A → Input → Bool → Bool) (a : A) (rs us : List Input) (s : Bool)
    → after effect a (rs ++ us) s ≡ after effect a us (after effect a rs s)
unfolding after
after-append effect a [] us s = refl
after-append effect a (r ∷ rs) us s = after-append effect a rs us (effect a r s)

-- The injector's own record of a key and of a button.
unfoldable pub holds_key : Injector → ℕ × Bool → Bool
holds_key i k = contains k i.held_keys

unfoldable pub holds_button : Injector → MouseButton → Bool
holds_button i b = contains (button_id b) i.held_buttons

key-release_keys :
    (k : ℕ × Bool) (ks : List (ℕ × Bool)) (s : Bool)
    → after key_effect k (map release_key ks) s ≡ (if contains k ks then false else s)
unfolding after key_effect release_key contains
key-release_keys k [] s = refl
key-release_keys k ((scan, ext) ∷ ks) s = ground (
  arith,
  key-release_keys k ks (key_effect k (release_key (scan, ext)) s),
  pair_beq_iff k (scan, ext),
  pair_beq_iff (scan, ext) k,
)

button_in-button_flags :
    (c : MouseButton) (down : Bool)
    → button_in (button_flags c down).0 (button_flags c down).1 ≡ some (c, down)
unfolding button_in button_flags
button_in-button_flags left true = refl
button_in-button_flags left false = refl
button_in-button_flags right true = refl
button_in-button_flags right false = refl
button_in-button_flags middle true = refl
button_in-button_flags middle false = refl
button_in-button_flags back true = refl
button_in-button_flags back false = refl
button_in-button_flags forward true = refl
button_in-button_flags forward false = refl

button_of-button_id : (b : MouseButton) → button_of (button_id b) ≡ b
unfolding button_of button_id
button_of-button_id left = refl
button_of-button_id right = refl
button_of-button_id middle = refl
button_of-button_id back = refl
button_of-button_id forward = refl

-- A release record lets go of its own button and presses none.
button-release_button :
    (b : MouseButton) (j : ℕ) (s : Bool)
    → button_effect b (release_button j) s ≡ true
    → (s ≡ true) × (nat_beq j (button_id b) ≡ false)
unfolding button_effect release_button
button-release_button b j s h =
    let e = button_in-button_flags (button_of j) false in
    let g : set_button b (some (button_of j, false)) s ≡ true =
      subst (λ o. set_button b o s ≡ true) e h in
    (
      ground arith,
      ground (arith, button_of-button_id b, ap (λ x. button_of x) {x = j} {y = button_id b}),
    )

button-release_buttons :
    (b : MouseButton) (ids : List ℕ) (s : Bool)
    → (s ≡ true → contains (button_id b) ids ≡ true)
    → after button_effect b (map release_button ids) s ≡ false
unfolding after contains
button-release_buttons b [] s h = ground (arith, h)
button-release_buttons b (j ∷ ids) s h =
    button-release_buttons b ids (button_effect b (release_button j) s)
      (λ e. let (t, n) = button-release_button b j s e in ground (arith, t, n, h t))

key-append :
    (k : ℕ × Bool) (ids : List ℕ) (s : Bool) → after key_effect k (map release_button ids) s ≡ s
unfolding after key_effect release_button
key-append k [] s = refl
key-append k (j ∷ ids) s = key-append k ids s

button-release_keys :
    (b : MouseButton) (ks : List (ℕ × Bool)) (s : Bool)
    → after button_effect b (map release_key ks) s ≡ s
unfolding after button_effect release_key
button-release_keys b [] s = refl
button-release_keys b ((scan, ext) ∷ ks) s = button-release_keys b ks s

-- Text does not press a physical key or a button.
key-type_text : (k : ℕ × Bool) (us : List ℕ) (s : Bool) → after key_effect k (type_text us) s ≡ s
unfolding after key_effect type_text
key-type_text k [] s = refl
key-type_text k (u ∷ us) s = key-type_text k us s

button-type_text :
    (b : MouseButton) (us : List ℕ) (s : Bool) → after button_effect b (type_text us) s ≡ s
unfolding after button_effect type_text
button-type_text b [] s = refl
button-type_text b (u ∷ us) s = button-type_text b us s

key-release_records :
    (k : ℕ × Bool) (i : Injector) → after key_effect k (release_records i).0 (holds_key i k) ≡ false
unfolding release_records holds_key
key-release_records k i =
    after-append key_effect k (map release_key i.held_keys) (map release_button i.held_buttons)
      (contains k i.held_keys)
    ∙ key-append k i.held_buttons _
    ∙ key-release_keys k i.held_keys (contains k i.held_keys)
    ∙ ground arith

button-release_records :
    (b : MouseButton) (i : Injector)
    → after button_effect b (release_records i).0 (holds_button i b) ≡ false
unfolding release_records holds_button
button-release_records b i =
    after-append button_effect b (map release_key i.held_keys) (map release_button i.held_buttons)
      (contains (button_id b) i.held_buttons)
    ∙ ap (after button_effect b (map release_button i.held_buttons))
        (button-release_keys b i.held_keys (contains (button_id b) i.held_buttons))
    ∙ button-release_buttons b i.held_buttons (contains (button_id b) i.held_buttons) (λ e. e)

module _ (place : ℕ → ℕ → DisplayInfo → ℕ × ℕ) where
  -- What one event's records do to a key and to a button is what the injector notes of it.
  key-build :
      (k : ℕ × Bool) (ev : InputEvent) (d : DisplayInfo) (i : Injector)
      → after key_effect k (build place ev d i).0 (holds_key i k)
        ≡ holds_key (build place ev d i).1 k
  unfolding build after key_effect holds_key add contains release_records new
  key-build k (InputEvent.mouse_move x y) d i = refl
  key-build k (InputEvent.mouse_button b down) d i = refl
  key-build k (InputEvent.wheel dx dy) d i = ground arith
  key-build k (InputEvent.key scan ext down) d i = ground (
    arith,
    contains-without (scan, ext) k i.held_keys,
    pair_beq_iff k (scan, ext),
    pair_beq_iff (scan, ext) k,
  )
  key-build k (InputEvent.text s) d i = key-type_text k (encode_utf16 s) (contains k i.held_keys)
  key-build k InputEvent.release_all d i = key-release_records k i

  button-build :
      (b : MouseButton) (ev : InputEvent) (d : DisplayInfo) (i : Injector)
      → after button_effect b (build place ev d i).0 (holds_button i b)
        ≡ holds_button (build place ev d i).1 b
  unfolding build after button_effect button_in holds_button add contains release_records new
  button-build b (InputEvent.mouse_move x y) d i = refl
  button-build b (InputEvent.mouse_button c down) d i =
      rw (button_in-button_flags c down)
        (ground (arith, contains-without (button_id c) (button_id b) i.held_buttons))
  button-build b (InputEvent.wheel dx dy) d i = ground arith
  button-build b (InputEvent.key scan ext down) d i = ground arith
  button-build b (InputEvent.text s) d i = button-type_text b (encode_utf16 s) _
  button-build b InputEvent.release_all d i = button-release_records b i

  key-build_all :
      (k : ℕ × Bool) (evs : List (InputEvent × DisplayInfo)) (i : Injector)
      → after key_effect k (build_all place evs i).0 (holds_key i k)
        ≡ holds_key (build_all place evs i).1 k
  unfolding build_all after
  key-build_all k [] i = refl
  key-build_all k ((ev, d) ∷ evs) i =
      after-append key_effect k (build place ev d i).0 _ (holds_key i k)
      ∙ ap (after key_effect k (build_all place evs (build place ev d i).1).0) (key-build k ev d i)
      ∙ key-build_all k evs (build place ev d i).1

  button-build_all :
      (b : MouseButton) (evs : List (InputEvent × DisplayInfo)) (i : Injector)
      → after button_effect b (build_all place evs i).0 (holds_button i b)
        ≡ holds_button (build_all place evs i).1 b
  unfolding build_all after
  button-build_all b [] i = refl
  button-build_all b ((ev, d) ∷ evs) i =
      after-append button_effect b (build place ev d i).0 _ (holds_button i b)
      ∙ ap (after button_effect b (build_all place evs (build place ev d i).1).0)
          (button-build b ev d i)
      ∙ button-build_all b evs (build place ev d i).1

  -- Whatever events a new injector is given, the records that it builds followed by those of its
  -- release leave no physical key and no mouse button pressed on the system that acts on them.
  pub release_records-all :
      (evs : List (InputEvent × DisplayInfo)) (k : ℕ × Bool) (b : MouseButton)
      → (after key_effect k
            ((build_all place evs new).0 ++ (release_records (build_all place evs new).1).0)
            false
          ≡ false)
        × (after button_effect b
              ((build_all place evs new).0 ++ (release_records (build_all place evs new).1).0)
              false
            ≡ false)
  unfolding new holds_key holds_button contains
  release_records-all evs k b = (
    after-append key_effect k (build_all place evs new).0 _ false
        ∙ ap (after key_effect k (release_records (build_all place evs new).1).0)
            (key-build_all k evs new)
        ∙ key-release_records k (build_all place evs new).1,
    after-append button_effect b (build_all place evs new).0 _ false
        ∙ ap (after button_effect b (release_records (build_all place evs new).1).0)
            (button-build_all b evs new)
        ∙ button-release_records b (build_all place evs new).1,
  )
