-- ===== src/Ps2/Device/Kind.antt =====
-- `reset_port_and_get_device_type`: the type of device that it reports, and the kind.
use maple_kernel.Base.{ℕ, ◌≡◌, refl, ◌∙◌, ◌⊎◌, inl, inr, arith}
use maple_kernel.Ps2.{Trace, Result, ok, err, ⊤, raise, ◌>>=◌}
use maple_kernel.Ps2.Rules.{Outcome, Ensures, Ensures-pure, Ensures-raise, Ensures-if, Ensures-bind}
use maple_kernel.Ps2.Registers.{ErrorCode}
use maple_kernel.Ps2.Controller.{Action}
use maple_kernel.Ps2.Device.{
  DeviceType, DeviceSuperType, unknown, keyboard, mouse, ancient_at_keyboard, standard_mouse,
  mouse_with_scroll_wheel, mouse_with_5_button, mf2_keyboard_1, mf2_keyboard_2, short_keyboard,
  key_122_host_connected, key_122, japanese_g_keyboard, japanese_p_keyboard, japanese_a_keyboard,
  ncd_sun_layout_keyboard, found, after_third, DeviceFound, get_device_super_type, len3_device,
  len4_device, identify_device, reset_port_and_get_device_type,
}

-- Nothing is asked of the trace.
abbrev pub Finds : {A : Type 0} → Action A → (A → Type 0) → Type 0
Finds m Q = Ensures (λ _. ⊤) m (λ a _. Q a) (λ _ _. ⊤)

abbrev pub IsOfKind : DeviceFound → Type 0
IsOfKind f = f.mouse_or_keyboard ≡ get_device_super_type f.device_type

trivial-Outcome : {E A : Type 0} (o : Result E A × Trace) → Outcome (λ a t. ⊤) (λ e t. ⊤) o
trivial-Outcome (ok a, t) = tt
trivial-Outcome (err e, t) = tt

trivial : {A : Type 0} (m : Action A) → Finds m (λ _. ⊤)
trivial m = record { at = λ d t p. trivial-Outcome (m d t) }

module _ {A B : Type 0} where
  Finds-bind :
      (m : Action A) (f : A → Action B) (Q : B → Type 0)
      → ((a : A) → Finds (f a) Q)
      → Finds (m >>= f) Q
  Finds-bind m f Q h = Ensures-bind m f (trivial m) h

Finds-raise : {A : Type 0} (e : ErrorCode) (Q : A → Type 0) → Finds (raise e) Q
Finds-raise e Q = Ensures-raise e (λ t p. tt)

found-IsOfKind :
    (type : DeviceType) (super_type : DeviceSuperType)
    → super_type ≡ get_device_super_type type
    → Finds (found type super_type) IsOfKind
found-IsOfKind type super_type e = Ensures-pure _ (λ t p. e)

ruleset kind_rules = (Finds-bind, Finds-raise, found-IsOfKind, Ensures-if)

len3_device-IsOfKind : (rep3 : ℕ) → Finds (len3_device rep3) IsOfKind
unfolding len3_device get_device_super_type
len3_device-IsOfKind rep3 = search kind_rules depth 20

len4_device-IsOfKind : (rep4 : ℕ) → Finds (len4_device rep4) IsOfKind
unfolding len4_device get_device_super_type
len4_device-IsOfKind rep4 = search kind_rules depth 20

after_third-IsOfKind : (third : Result ErrorCode ⊤) → Finds (after_third third) IsOfKind
unfolding after_third get_device_super_type
after_third-IsOfKind (ok _) =
    search (kind_rules, len3_device-IsOfKind, len4_device-IsOfKind) depth 20
after_third-IsOfKind (err _) = search kind_rules depth 20

identify_device-IsOfKind : Finds identify_device IsOfKind
unfolding identify_device
identify_device-IsOfKind = search (kind_rules, after_third-IsOfKind) depth 20

pub reset_port_and_get_device_type-IsOfKind :
    (port : ℕ) → Finds (reset_port_and_get_device_type port) IsOfKind
unfolding reset_port_and_get_device_type
reset_port_and_get_device_type-IsOfKind port =
    search (kind_rules, identify_device-IsOfKind) depth 20

-- Every type of device is a keyboard's or a mouse's.
super_type-Known :
    (d : DeviceType) → (get_device_super_type d ≡ keyboard) ⊎ (get_device_super_type d ≡ mouse)
unfolding get_device_super_type
super_type-Known ancient_at_keyboard = inl refl
super_type-Known mf2_keyboard_1 = inl refl
super_type-Known mf2_keyboard_2 = inl refl
super_type-Known short_keyboard = inl refl
super_type-Known key_122_host_connected = inl refl
super_type-Known key_122 = inl refl
super_type-Known japanese_g_keyboard = inl refl
super_type-Known japanese_p_keyboard = inl refl
super_type-Known japanese_a_keyboard = inl refl
super_type-Known ncd_sun_layout_keyboard = inl refl
super_type-Known standard_mouse = inr refl
super_type-Known mouse_with_scroll_wheel = inr refl
super_type-Known mouse_with_5_button = inr refl

abbrev pub IsKnown : DeviceSuperType → Type 0
IsKnown k = (k ≡ keyboard) ⊎ (k ≡ mouse)

pub unknown-IsKnown : IsKnown unknown → ⊥
unknown-IsKnown (inl e) = ground arith
unknown-IsKnown (inr e) = ground arith

pub found-IsKnown : (f : DeviceFound) → IsOfKind f → IsKnown f.mouse_or_keyboard
found-IsKnown f e = elim (super_type-Known f.device_type) [
  | inl h ↦ inl (e ∙ h)
  | inr h ↦ inr (e ∙ h)
]
