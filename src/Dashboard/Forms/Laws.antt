-- ===== src/Dashboard/Forms/Laws.antt =====
-- What the forms promise: the select of recipients, and when the submit button is enabled.
use web3_lab_public.Prelude.{String, true, false, ◌≡◌, ◌≢◌, arith, any, eq_iff}
use web3_lab_public.Dashboard.State.{Dashboard}
use web3_lab_public.Dashboard.Forms.{
  is_scw, recipient_select_value, change_recipient, shows_recipient_field,
}

-- The select of recipients shows what was chosen: a linked wallet, the user's own wallet and the
-- custom entry, where no linked wallet has the address that stands for the last two.
pub change_recipient-shown :
    (s : Dashboard)
    → any (is_scw "") s.linked_identities ≡ false
    → any (is_scw "custom") s.linked_identities ≡ false
    → (recipient_select_value (change_recipient "self" s) ≡ "self")
      × (recipient_select_value (change_recipient "custom" s) ≡ "custom")
      × ((to : String)
          → to ≢ "self"
          → any (is_scw to) s.linked_identities ≡ true
          → recipient_select_value (change_recipient to s) ≡ to)
unfolding recipient_select_value change_recipient
change_recipient-shown s e c = (
  ground (arith, e),
  ground (arith, c),
  λ to d k. ground (arith, c, k, eq_iff to "self", eq_iff to "custom"),
)

-- The field for a recipient is shown after the custom entry was chosen, and not after the user's
-- own wallet was.
pub change_recipient-field :
    (s : Dashboard)
    → any (is_scw "custom") s.linked_identities ≡ false
    → (shows_recipient_field (change_recipient "custom" s) ≡ true)
      × (shows_recipient_field (change_recipient "self" s) ≡ false)
unfolding shows_recipient_field change_recipient
change_recipient-field s c = (ground (arith, c), ground arith)
