-- ===== src/Dashboard/Account.antt =====
-- The account's functions of DashboardPage.tsx: signing out, switching the wallet, the copy buttons
-- and the field that copies its value on a click.
use web3_lab_public.Prelude.{ℕ, String, Bool, true, false, Option, none, some, if◌then◌else◌}
use web3_lab_public.Browser.{
  Io, set, emit, scheduled, Later, clear_field_copied, clear_tx_copied, clear_scw_copied,
  clear_contract_copied, clear_address_copied, clear_token_copied, clear_switch_status, go_to, ◌>>◌,
}
use web3_lab_public.Session
use web3_lab_public.Session.{Wallet}
use web3_lab_public.Dashboard.State.{Dashboard}
use web3_lab_public.Dashboard.Services.{Services}
use web3_lab_public.Dashboard.ContextMenu.{copy_text, handle_field_context_menu}

module _ (env : Services) (encode : String → String) where
  abbrev pub wallet_of : Wallet
  wallet_of = record {
    has_ethereum = env.has_ethereum;
    request_accounts = env.request_accounts;
    revoke_permissions = env.revoke_permissions;
    encode = encode;
  }

  unfoldable pub logout : Dashboard → Io Dashboard (Unit {0})
  logout view = Session.logout env.urls wallet_of view.wallet_address

  unfoldable pub switch_wallet : Dashboard → Io Dashboard (Unit {0})
  switch_wallet view =
      Session.switch_wallet env.urls wallet_of (λ status s. record s { switch_status = status })
        view.wallet_address

-- A given address is copied in place of the wallet's.
unfoldable pub copy_address : Dashboard → Option String → Io Dashboard (Unit {0})
copy_address view target =
    Session.copy_present (λ s. record s { address_copied = true }) clear_address_copied
      (elim target [ some t ↦ some t | none ↦ view.wallet_address ])

unfoldable pub copy_token : Dashboard → Io Dashboard (Unit {0})
copy_token view =
    Session.copy_present (λ s. record s { token_copied = true }) clear_token_copied view.token

-- The copy buttons of the sidebar and of the result.
unfoldable pub copy_scw : String → Io Dashboard (Unit {0})
unfolding copy_text
copy_scw address = do
  copy_text address
  set (λ s. record s { scw_copied = true })
  emit (scheduled 2000 clear_scw_copied)

unfoldable pub copy_tx : String → Io Dashboard (Unit {0})
unfolding copy_text
copy_tx hash = do
  copy_text hash
  set (λ s. record s { tx_copied = true })
  emit (scheduled 2000 clear_tx_copied)

unfoldable pub copy_contract : String → Io Dashboard (Unit {0})
unfolding copy_text
copy_contract address = do
  copy_text address
  set (λ s. record s { contract_addr_copied = true })
  emit (scheduled 2000 clear_contract_copied)

-- What a timer of the page does when it fires; the other timers are those of other pages.
unfoldable pub fire : Later → Dashboard → Dashboard
fire clear_tx_copied s = record s { tx_copied = false }
fire clear_scw_copied s = record s { scw_copied = false }
fire clear_contract_copied s = record s { contract_addr_copied = false }
fire clear_address_copied s = record s { address_copied = false }
fire clear_token_copied s = record s { token_copied = false }
fire clear_switch_status s = record s { switch_status = none }
fire clear_field_copied s = s
fire (go_to url) s = s

-- `CopyableFieldDark`: its own state is whether the value has just been copied.
pub record CopyField : Type 0 where
  pub copied : Bool

pub data FieldValue : Type 0 where
  flag : Bool → FieldValue
  words : String → FieldValue

abbrev pub string_value : FieldValue → String
string_value (flag true) = "true"
string_value (flag false) = "false"
string_value (words s) = s

unfoldable pub handle_copy : FieldValue → Io CopyField (Unit {0})
handle_copy value =
    Session.copy_flagged (λ s. record s { copied = true }) clear_field_copied (string_value value)

-- `handleRightClick`: the menu opens where the field was given a handler for it.
unfoldable pub handle_right_click : (has_menu : Bool) (x y : ℕ) → FieldValue → Dashboard → Dashboard
handle_right_click has_menu x y value s =
    if has_menu then handle_field_context_menu x y (string_value value) s else s

abbrev pub copy_mark : CopyField → String
copy_mark f = if f.copied then "✓" else "Copy"
