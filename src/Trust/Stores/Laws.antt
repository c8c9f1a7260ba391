-- ===== src/Trust/Stores/Laws.antt =====
-- Opening the stores loses nothing that the device knew.
use nopass.Prelude.{
  ◌≡◌, ap, ◌∙◌, inl, inr, String, List, [], ◌∷◌, some, Option-cases, Bool-cases, eq_iff, str_eq,
}
use nopass.Prelude.Maps.{lookup, lookup-insert}
use nopass.Identity.Pins.{KeyPinStore}
use nopass.Trust.Stores.{pin_if_new, add_pins, open_key_pin_store}

pin_if_new-keeps :
    (pins : KeyPinStore) (p : String × String) (u key : String)
    → lookup u pins ≡ some key
    → lookup u (pin_if_new pins p) ≡ some key
unfolding pin_if_new
pin_if_new-keeps pins (v, k) u key h = elim (Option-cases (lookup v pins)) [
  | inr (known, there) ↦ rw (there, pin_if_new) h
  | inl absent ↦ elim (Bool-cases (str_eq v u)) [
    | inl same ↦ absurd (cc (ap (λ x. lookup x pins) ((eq_iff v u).0 same), absent, h))
    | inr other ↦ rw (absent, pin_if_new) (lookup-insert v u k pins ∙ rw other h)
  ]
]

add_pins-keeps :
    (pins : KeyPinStore) (ps : List (String × String)) (u key : String)
    → lookup u pins ≡ some key
    → lookup u (add_pins pins ps) ≡ some key
unfolding add_pins
add_pins-keeps pins [] u key h = h
add_pins-keeps pins (p ∷ ps) u key h =
    add_pins-keeps (pin_if_new pins p) ps u key (pin_if_new-keeps pins p u key h)

-- A pin of the new store is never replaced by a legacy record.
pub open_key_pin_store-keeps :
    (pins : KeyPinStore) (records : List KeyPinStore) (u key : String)
    → lookup u pins ≡ some key
    → lookup u (open_key_pin_store pins records) ≡ some key
unfolding open_key_pin_store
open_key_pin_store-keeps pins [] u key h = h
open_key_pin_store-keeps pins (r ∷ rs) u key h =
    open_key_pin_store-keeps (add_pins pins r) rs u key (add_pins-keeps pins r u key h)
