-- ===== src/Dashboard/ContextMenu/Laws.antt =====
-- Which values have a context menu.
use web3_lab_public.Prelude.{ℕ, zero, suc, String, true, [], none, ◌≡◌, ◌≢◌, ◌↔◌, refl, arith}
use web3_lab_public.Text.{is_hex_run, is_hex_number, length_of}
use web3_lab_public.Dashboard.State.{address, tx, generic, Dashboard}
use web3_lab_public.Dashboard.ContextMenu.{
  detect_context_type, handle_field_context_menu, menu_view, get_context_menu_items,
}

length-hex_run : (n : ℕ) (s : String) → is_hex_run n s ≡ true → length_of s ≡ n
unfolding is_hex_run
length-hex_run zero String.[] h = refl
length-hex_run zero (String.◌∷◌ c s) h = cc
length-hex_run (suc n) String.[] h = cc
length-hex_run (suc n) (String.◌∷◌ c s) h = ground (arith, length-hex_run n s)

-- A text has one length, so it is not a number of two lengths.
length-hex_number : (n : ℕ) (s : String) → is_hex_number n s ≡ true → length_of s ≡ suc (suc n)
unfolding is_hex_number
length-hex_number n String.[] h = cc
length-hex_number n (String.◌∷◌ z String.[]) h = cc
length-hex_number n (String.◌∷◌ z (String.◌∷◌ x s)) h = ground (arith, length-hex_run n s)

-- A value is taken for a transaction exactly if it is `0x` and 64 hexadecimal digits, and for an
-- address exactly if it is `0x` and 40 of them: the order of the two tests does not matter.
pub detect_context_type_iff :
    (value : String)
    → ((detect_context_type value ≡ tx) ↔ (is_hex_number 64 value ≡ true))
      × ((detect_context_type value ≡ address) ↔ (is_hex_number 40 value ≡ true))
unfolding detect_context_type
detect_context_type_iff value =
    ground (arith, length-hex_number 64 value, length-hex_number 40 value)

-- A right click on a field opens a menu with items exactly if the value is an address or the hash
-- of a transaction; otherwise the page stays as it is.
pub handle_field_context_menu-view :
    (x y : ℕ) (value : String) (s : Dashboard)
    → (detect_context_type value ≡ generic → handle_field_context_menu x y value s ≡ s)
      × (detect_context_type value ≢ generic
          → (menu_view (handle_field_context_menu x y value s).context_menu ≢ none)
            × (get_context_menu_items (detect_context_type value) ≢ []))
unfolding handle_field_context_menu menu_view detect_context_type
handle_field_context_menu-view x y value s = ground arith
