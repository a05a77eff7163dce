-- ===== src/Dashboard/Submit/Sending.antt =====
-- What the submit button of the sections that move assets sends.
use mathlib.Core.List.{append-nil}
use web3_lab_public.Prelude.{
  String, Bool, true, false, [], ◌∷◌, ◌++◌, Option, none, some, ◌≡◌, ◌≢◌, ◌∙◌, refl, arith, eq_iff,
  is_truthy, if◌then◌else◌,
}
use web3_lab_public.Browser.{Reply, ok, thrown, World, Trace, fetched}
use web3_lab_public.Dashboard.State.{
  mint, transfer, deploy, MenuSection, TokenType, erc20, File, Dashboard, sub_of,
}
use web3_lab_public.Dashboard.Services.{Services}
use web3_lab_public.Dashboard.Transaction.{Action, Params, execute_transaction}
use web3_lab_public.Dashboard.Transaction.Requests.{
  wire_request, amount_lookups, due_amount, Sends, execute_transaction-Sends,
}
use web3_lab_public.Dashboard.Forms.{submit_disabled}
use web3_lab_public.Dashboard.Submit.{
  interact_params, submit_interact, submit_in, has_artwork, handle_submit,
}

-- What the form says, as the parameters of a transaction.
abbrev pub typed_params : Dashboard → Params
typed_params view = record {
  to = view.interact_to;
  amount_or_id = view.interact_amount;
  token_addr = view.interact_token_address;
  name = "";
  symbol = "";
  decimals = "";
  initial_supply = "";
}

abbrev takes_artwork : TokenType → Option File → Bool
takes_artwork erc20 _ = false
takes_artwork _ none = false
takes_artwork _ (some _) = true

-- The action of a form without an artwork.
abbrev plain : MenuSection → TokenType → Option File → Option Action
plain transfer type file = some Action.transfer
plain mint type file = if takes_artwork type file then none else some Action.mint
plain _ type file = none

abbrev pub plain_action : Dashboard → Option Action
plain_action view = plain view.active_section view.active_token view.upload_file

-- The form's recipient and token are addresses, not the placeholder of the custom entries.
pub record IsFilledIn (p : Params) : Type 0 where
  pub recipient : p.to ≢ "custom"
  pub token : is_truthy p.token_addr ≡ true
  pub address : p.token_addr ≢ "custom"

module _ (env : Services) (view : Dashboard) where
  abbrev posted : String → Action → Reply String → Trace
  posted sub action (ok amount) =
      fetched (wire_request env view sub action view.active_token (typed_params view) amount) ∷ []
  posted sub action (thrown e) = []

  -- The trace after a submission: what is asked for the amount, and the transaction if it is known.
  abbrev pub submitted : String → Action → Trace → Trace
  submitted sub action t =
      t
      ++ amount_lookups env view view.active_token (typed_params view)
      ++ posted sub action (due_amount env view view.active_token (typed_params view) t)

  submit_disabled-IsFilledIn :
      submit_disabled view ≡ false → view.active_section ≢ deploy → IsFilledIn (typed_params view)
  unfolding submit_disabled
  submit_disabled-IsFilledIn h d = record {
    recipient = ground (arith, h, d, eq_iff view.interact_to "custom");
    token = ground (arith, h, d);
    address = ground (arith, h, d, eq_iff view.interact_token_address "custom");
  }

  execute-submission :
      (sub : String) (action : Action) (w : World Dashboard)
      → sub_of view.user_info ≡ some sub
      → (execute_transaction env view action view.active_token (typed_params view) w).1.trace
        ≡ submitted sub action w.trace
  execute-submission sub action w known =
      go (due_amount env view type p w.trace) refl
        (execute_transaction-Sends env view action type p w sub known)
    where
      type : TokenType
      type = view.active_token

      p : Params
      p = typed_params view

      go :
          (a : Reply String)
          → due_amount env view type p w.trace ≡ a
          → Sends env view sub action type p
              (w.trace ++ amount_lookups env view type p)
              a
              (execute_transaction env view action type p w)
          → (execute_transaction env view action type p w).1.trace
            ≡ w.trace ++ amount_lookups env view type p ++ posted sub action a
      go (ok amount) a h = h
      go (thrown e) a h = ground (arith, h, append-nil (w.trace ++ amount_lookups env view type p))

  interact_params-typed : view.interact_to ≢ "custom" → interact_params view ≡ typed_params view
  interact_params-typed d = ground (arith, eq_iff view.interact_to "custom")

  handle_submit-plain :
      (action : Action) (w : World Dashboard)
      → plain_action view ≡ some action
      → (handle_submit env view w).1.trace
        ≡ (execute_transaction env view action view.active_token (interact_params view) w).1.trace
  unfolding handle_submit submit_in submit_interact has_artwork
  handle_submit-plain action w h =
      go view.active_section view.active_token view.upload_file refl refl refl h
    where
      go :
          (m : MenuSection) (t : TokenType) (o : Option File)
          → view.active_section ≡ m
          → view.active_token ≡ t
          → view.upload_file ≡ o
          → plain m t o ≡ some action
          → (handle_submit env view w).1.trace
            ≡ (execute_transaction env view action view.active_token
                (interact_params view)
                w).1.trace
      go m t o e f g h = ground (arith, e, f, g, h)

  plain_action-moves :
      (action : Action) → plain_action view ≡ some action → view.active_section ≢ deploy
  plain_action-moves action h = ground (arith, h)

  -- For a known user: while the submit button of the mint or transfer section is enabled, and no
  -- artwork is minted, the recipient of the form is not the placeholder of the custom entry and its
  -- token is given and is no placeholder either. A click sends one transaction, of the section's
  -- action, to that recipient and of that token, with the form's amount scaled as its type wants, and
  -- none if the amount cannot be scaled.
  pub handle_submit-sends :
      (sub : String) (action : Action) (w : World Dashboard)
      → sub_of view.user_info ≡ some sub
      → plain_action view ≡ some action
      → submit_disabled view ≡ false
      → IsFilledIn (typed_params view)
        × ((handle_submit env view w).1.trace ≡ submitted sub action w.trace)
  handle_submit-sends sub action w known plain enabled =
      let filled = submit_disabled-IsFilledIn enabled (plain_action-moves action plain) in
      (
        filled,
        handle_submit-plain action w plain
            ∙ rw (interact_params-typed filled.recipient) (execute-submission sub action w known),
      )
