-- ===== src/Dashboard/ContextMenu.antt =====
-- The context menu of DashboardPage.tsx: `detectContextType`, `handleContextMenu`,
-- `handleFieldContextMenu`, `getContextMenuItems`, the menu's buttons and the clicks outside it.
pub mod Laws
use web3_lab_public.Prelude.{
  ℕ, String, Bool, true, false, List, [], ◌∷◌, Option, none, some, ◌<>◌, if◌then◌else◌, is_truthy,
}
use web3_lab_public.Text.{is_hex_number}
use web3_lab_public.Browser.{Io, set, emit, opened, copied, when, ◌>>◌}
use web3_lab_public.Dashboard.State.{ContextMenuType, address, tx, generic, ContextMenu, Dashboard}

-- A hash has 64 hexadecimal digits behind `0x`, an address 40.
unfoldable pub detect_context_type : String → ContextMenuType
detect_context_type value =
    if is_hex_number 64 value then tx else if is_hex_number 40 value then address else generic

abbrev forced : Option ContextMenuType → ContextMenuType → ContextMenuType
forced none detected = detected
forced (some type) detected = type

unfoldable pub handle_context_menu :
    (x y : ℕ) → String → Option ContextMenuType → Dashboard → Dashboard
handle_context_menu x y value force s = record s {
  context_menu =
      some
        (record { x = x; y = y; value = value; type = forced force (detect_context_type value) });
}

abbrev pub is_generic : ContextMenuType → Bool
is_generic generic = true
is_generic _ = false

unfoldable pub handle_field_context_menu : (x y : ℕ) → String → Dashboard → Dashboard
unfolding handle_context_menu
handle_field_context_menu x y value s =
    if is_generic (detect_context_type value)
    then s
    else handle_context_menu x y value (some (detect_context_type value)) s

-- An item of the menu: its label, and the explorer's path for a value.
pub record MenuItem : Type 0 where
  pub label : String
  pub path : String → String

unfoldable pub get_context_menu_items : ContextMenuType → List MenuItem
get_context_menu_items tx =
    record { label = "🔍 Open in Blockscout"; path = λ v. "/tx/" <> v }
    ∷ record { label = "📋 View Internal Transactions"; path = λ v. "/tx/" <> v <> "?tab=internal" }
    ∷ record { label = "💱 View Token Transfers"; path = λ v. "/tx/" <> v <> "?tab=token_transfers" }
    ∷ record { label = "📜 View Logs"; path = λ v. "/tx/" <> v <> "?tab=logs" }
    ∷ record { label = "🔬 View Raw Trace"; path = λ v. "/tx/" <> v <> "?tab=raw_trace" }
    ∷ []
get_context_menu_items address =
    record { label = "🔍 Open in Blockscout"; path = λ v. "/address/" <> v }
    ∷ record { label = "💰 View Token Holdings"; path = λ v. "/address/" <> v <> "?tab=tokens" }
    ∷ record { label = "📋 View Transactions"; path = λ v. "/address/" <> v <> "?tab=txs" }
    ∷ record {
      label = "🔗 View Internal Transactions";
      path = λ v. "/address/" <> v <> "?tab=internal_txns";
    }
    ∷ record { label = "📜 View Logs"; path = λ v. "/address/" <> v <> "?tab=logs" }
    ∷ []
get_context_menu_items _ = []

-- The menu that is drawn: none for a value of no known kind.
pub record MenuView : Type 0 where
  pub title : String
  pub items : List MenuItem
  pub copy_label : String

abbrev menu_of : ContextMenuType → Option MenuView
menu_of generic = none
menu_of tx = some (record {
  title = "Transaction Actions";
  items = get_context_menu_items tx;
  copy_label = "📎 Copy TX Hash";
})
menu_of other = some (record {
  title = "Address Actions";
  items = get_context_menu_items other;
  copy_label = "📎 Copy Address";
})

unfoldable pub menu_view : Option ContextMenu → Option MenuView
unfolding get_context_menu_items
menu_view none = none
menu_view (some m) = menu_of m.type

-- A click on an item opens the explorer in a new tab, and closes the menu.
unfoldable pub click_item : String → ContextMenu → MenuItem → Io Dashboard (Unit {0})
click_item blockscout_url menu item = do
  emit (opened (blockscout_url <> item.path menu.value))
  set (λ s. record s { context_menu = none })

-- `copyText`
unfoldable pub copy_text : String → Io Dashboard (Unit {0})
copy_text text = when (is_truthy text) (emit (copied text))

unfoldable pub click_copy : ContextMenu → Io Dashboard (Unit {0})
unfolding copy_text
click_copy menu = do copy_text menu.value; set (λ s. record s { context_menu = none })

-- The listener for a press of the mouse, which is there while the menu is open.
unfoldable pub on_mouse_down : (inside : Bool) → Dashboard → Dashboard
on_mouse_down inside s = elim s.context_menu [
  | none ↦ s
  | some _ ↦ if inside then s else record s { context_menu = none }
]
