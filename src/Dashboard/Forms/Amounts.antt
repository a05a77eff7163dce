-- ===== src/Dashboard/Forms/Amounts.antt =====
-- The warning for an amount with too many places, and the submission of an amount without one.
use web3_lab_public.Prelude.{
  ℕ, String, Bool, true, false, ◌&&◌, [], ◌∷◌, ◌++◌, none, some, ◌<>◌, ◌≡◌, ◌∙◌, refl, arith, Char,
  code, leb, is_truthy, ◌==◌, if◌then◌else◌,
}
use text.Mathlib.TextLemmas.{nil-append, cons-append}
use web3_lab_public.Text.{length_of, split, second?}
use web3_lab_public.Text.Splitting.{lacks, split-two}
use web3_lab_public.Browser.{ok, Trace, Request, World, Response, is_ok, fetched}
use web3_lab_public.Dashboard.State.{transfer, Number, nat, TokenBalance, Dashboard, sub_of}
use web3_lab_public.Dashboard.Services.{Services, ExecuteBody}
use web3_lab_public.Dashboard.Transaction.{Action, Params, is_fungible}
use web3_lab_public.Dashboard.Transaction.Requests.{wire_request, execute_request-wire}
use web3_lab_public.Dashboard.Submit.{handle_submit}
use web3_lab_public.Dashboard.Submit.Transfers.{IsTransfer, handle_submit-accepted}
use web3_lab_public.Dashboard.Forms.{amount_warning, change_amount}

abbrev pub is_digits : String → Bool
is_digits String.[] = true
is_digits (String.◌∷◌ c s) = leb 48 (code c) && leb (code c) 57 && is_digits s

-- A decimal number: the digits before the point and those after it.
abbrev point : Char
point = Char.char 46 tt

abbrev pub decimal : String → String → String
decimal whole fraction = whole <> String.◌∷◌ point fraction

-- What `parseUnits` of the ethers library makes of a text.
pub record IsScaled (env : Services) (text : String) (decimals : Number) : Type 0 where
  pub amount : String
  pub scaled : env.parse_units text decimals ≡ ok amount

-- `parseUnits` takes up to 80 decimals and a number of 512 bits: a decimal number of at most 60
-- digits before the point and no more after it than there are decimals is scaled.
abbrev pub Scales : Services → Type 0
Scales env =
    (whole fraction : String) (d : ℕ)
    → is_digits whole ≡ true
    → is_digits fraction ≡ true
    → is_truthy whole ≡ true
    → leb (length_of whole) 60 ≡ true
    → leb d 80 ≡ true
    → leb (length_of fraction) d ≡ true
    → IsScaled env (decimal whole fraction) (nat d)

digits-lacks : (s : String) → is_digits s ≡ true → lacks b'.' s ≡ true
digits-lacks String.[] h = refl
digits-lacks (String.◌∷◌ c s) h = ground (arith, h, digits-lacks s)

-- The places of a decimal number are those after its point.
decimal-places :
    (whole fraction : String)
    → is_digits whole ≡ true
    → is_digits fraction ≡ true
    → second? (split b'.' (decimal whole fraction)) ≡ some fraction
decimal-places whole fraction h k =
    rw (split-two b'.' whole fraction point (digits-lacks whole h) (digits-lacks fraction k) refl)
      refl

decimal-truthy : (whole fraction : String) → is_truthy (decimal whole fraction) ≡ true
decimal-truthy String.[] fraction = rw (nil-append (String.◌∷◌ point fraction)) refl
decimal-truthy (String.◌∷◌ c s) fraction = rw (cons-append c s (String.◌∷◌ point fraction)) refl

-- A form for the transfer of an asset whose decimals are a number.
pub record IsTransferForm (s : Dashboard) (sub : String) (asset : TokenBalance) (d : ℕ)
    : Type 0 where
  pub section : s.active_section ≡ transfer
  pub fungible : is_fungible s.active_token ≡ true
  pub selected : s.selected_asset ≡ some asset
  pub known : sub_of s.user_info ≡ some sub
  pub decimals : asset.decimals ≡ nat d

-- A typed decimal number without a warning has no more places than the asset has decimals.
unwarned-places :
    (s : Dashboard) (whole fraction sub : String) (asset : TokenBalance) (d : ℕ)
    → IsTransferForm s sub asset d
    → is_digits whole ≡ true
    → is_digits fraction ≡ true
    → (change_amount (decimal whole fraction) s).amount_error ≡ none
    → leb (length_of fraction) d ≡ true
unfolding change_amount amount_warning
unwarned-places s whole fraction sub asset d f h k e = ground (
  arith,
  e,
  f.section,
  f.selected,
  f.decimals,
  decimal-truthy whole fraction,
  decimal-places whole fraction h k,
)

-- A gateway that takes any request of a transaction.
pub record Accepts (env : Services) (res : Response ExecuteBody) (body : ExecuteBody) : Type 0 where
  pub answers : (t : Trace) (r : Request) → env.execute t r ≡ ok res
  pub succeeds : is_ok res ≡ true
  pub settles : res.json ≡ ok body

-- What the form says, as the parameters of a transfer; without a recipient the gateway takes the
-- user's own wallet.
abbrev pub transfer_params : Dashboard → Params
transfer_params view = record {
  to = if view.interact_to == "custom" then "" else view.interact_to;
  amount_or_id = view.interact_amount;
  token_addr = view.interact_token_address;
  name = "";
  symbol = "";
  decimals = "";
  initial_supply = "";
}

-- What a transfer leaves: one request, with an amount that is the typed one scaled, and the result.
pub record IsTransferred (env : Services) (view : Dashboard) (sub : String) (decimals : Number)
    (body : ExecuteBody) (w v : World Dashboard) : Type 0 where
  pub by : IsScaled env view.interact_amount decimals
  pub sent :
      v.trace
      ≡ w.trace
        ++ fetched (
            wire_request env view sub Action.transfer view.active_token
              (transfer_params view)
              by.amount)
          ∷ []
  pub shown : v.state.tx_result ≡ some body.result
  pub no_error : v.state.error ≡ none
  pub settled : v.state.tx_loading ≡ false

module _ (env : Services) (scales : Scales env) where
  -- For a known user: a decimal number, of at most 60 digits before its point, that is typed as the
  -- amount of a transfer of the selected asset, of a fungible type and with at most 80 decimals, and
  -- for which no warning is shown, is sent: to a gateway that accepts every transaction goes one
  -- POST to `/wallet/execute`, with that number scaled by the asset's decimals, and the page shows
  -- the gateway's result and no error.
  pub unwarned-IsTransferred :
      (s : Dashboard) (whole fraction sub : String) (asset : TokenBalance) (d : ℕ)
      (res : Response ExecuteBody) (body : ExecuteBody) (w : World Dashboard)
      → IsTransferForm s sub asset d
      → is_digits whole ≡ true
      → is_digits fraction ≡ true
      → is_truthy whole ≡ true
      → leb (length_of whole) 60 ≡ true
      → leb d 80 ≡ true
      → Accepts env res body
      → let view = change_amount (decimal whole fraction) s in
        view.amount_error ≡ none
        → IsTransferred env view sub asset.decimals body w (handle_submit env view w).1
  unfolding change_amount
  unwarned-IsTransferred s whole fraction sub asset d res body w f h k t l m a e =
      let view = change_amount (decimal whole fraction) s in
      let by : IsScaled env view.interact_amount asset.decimals = rw f.decimals (
        scales whole fraction d h k t l m (unwarned-places s whole fraction sub asset d f h k e)) in
      let transferring : IsTransfer env view sub by.amount asset = record {
        section = f.section;
        fungible = f.fungible;
        selected = f.selected;
        given = decimal-truthy whole fraction;
        known = f.known;
        scaled = by.scaled;
      } in
      let r =
        handle_submit-accepted env view sub by.amount asset res body w transferring
          (a.answers w.trace _) a.succeeds a.settles in
      let wire =
        execute_request-wire env view sub Action.transfer view.active_token (transfer_params view)
          by.amount in
      record { by = by; sent = r.0 ∙ rw wire refl; shown = r.1; no_error = r.2; settled = r.3 }
