-- ===== src/Examples/Racing.antt =====
-- A transfer in flight while the form is edited and a wallet is linked, a deployment whose receipt
-- is awaited, and the artwork of a token.
use web3_lab_public.Prelude.{String, true, some, List, [], ◌∷◌, ◌≡◌, refl}
use web3_lab_public.Text.{slice_from}
use web3_lab_public.Program.{bind, recover, ensure}
use web3_lab_public.Program.Advance.{advance}
use web3_lab_public.Program.Crew.{Page, launch}
use web3_lab_public.Program.Crew.Exclusive.{IsExclusive}
use web3_lab_public.Program.Crew.Owed.{IsAwaited}
use web3_lab_public.Dashboard.State.{Dashboard, deploy, mint, erc721}
use web3_lab_public.Dashboard.Identities.Programs.{link_program, account_program}
use web3_lab_public.Dashboard.Transaction.{begin}
use web3_lab_public.Dashboard.Transaction.Programs.{
  execute_program, attempt_program, amount_program, send_program,
}
use web3_lab_public.Dashboard.Submit.{has_artwork, created_topic}
use web3_lab_public.Dashboard.Submit.Programs.{artwork_program}
use web3_lab_public.Dashboard.Submit.Programs.Deployment.{follow_program}
use web3_lab_public.Dashboard.Submit.Programs.Whole.{submit_program, interact_program}
use web3_lab_public.Dashboard.Forms.{submit_disabled}
use web3_lab_public.Dashboard.Edits.{Edit, apply}
use web3_lab_public.Dashboard.Threads.{any_submission, plain_submission, Move, Running}
use web3_lab_public.Dashboard.Threads.Holding.{loading, linking}
use web3_lab_public.Dashboard.Threads.Exclusive.{Running-IsExclusive, Running-links_once}
use web3_lab_public.Dashboard.Threads.Owed.{Running-IsAwaited}
use web3_lab_public.Dashboard.Threads.Overtaking.{Publishes, follow-Publishes}
use web3_lab_public.Dashboard.Threads.Artwork.{StaysEnabled, artwork-StaysEnabled}
use web3_lab_public.Dashboard.Services.{Log}
use web3_lab_public.Examples.Data.{services, view, image}

abbrev blank : Page Dashboard
blank = record { state = view; running = [] }

abbrev clicked : Page Dashboard
clicked = launch (submit_program (services 3) view) blank

abbrev edited : Page Dashboard
edited = record clicked {
  state = apply (services 3).format_units (Edit.type_amount "3") clicked.state;
}

Running-edited : Running (services 3) (plain_submission (services 3)) view edited
unfolding submit_disabled
Running-edited =
    Running.later (Running.later Running.start (Move.submit refl refl))
      (Move.edit (Edit.type_amount "3"))

Running-IsExclusive_example : IsExclusive loading edited
Running-IsExclusive_example = Running-IsExclusive (services 3) view edited refl Running-edited

abbrev linked_too : Page Dashboard
linked_too = launch (link_program (services 3) clicked.state) clicked

clicked-unlinked : clicked.state.linking_wallet ≡ view.linking_wallet
unfolding advance submit_program interact_program execute_program bind ensure begin attempt_program
    recover amount_program send_program
clicked-unlinked = refl

Running-linked_too : Running (services 3) (any_submission (services 3)) view linked_too
unfolding submit_disabled
Running-linked_too =
    Running.later (Running.later Running.start (Move.submit refl refl)) (Move.link clicked-unlinked)

Running-links_once_example : IsExclusive linking linked_too
Running-links_once_example = Running-links_once (services 3) view linked_too refl Running-linked_too

linked_too-loading : linked_too.state.tx_loading ≡ true
unfolding advance submit_program interact_program execute_program bind ensure begin link_program
    attempt_program recover amount_program send_program account_program
linked_too-loading = refl

Running-IsAwaited_example : IsAwaited loading linked_too.running
Running-IsAwaited_example =
    Running-IsAwaited (services 3) view linked_too refl Running-linked_too linked_too-loading

abbrev drawing : Dashboard
drawing = record view { active_section = mint; active_token = erc721; upload_file = some image }

artwork-StaysEnabled_example : StaysEnabled (artwork_program (services 3) drawing) drawing
unfolding has_artwork
artwork-StaysEnabled_example = artwork-StaysEnabled (services 3) drawing refl

abbrev first_contract : String
first_contract = "0x1234567890123456789012345678901234567890"

-- The topic of an address, padded to 32 bytes.
abbrev padded : String
padded = "0x0000000000000000000000001234567890123456789012345678901234567890"

-- A receipt that announces the first of two contracts, while the page is at the second.
abbrev receipt : List Log
receipt = record { topics = "ERC20Created(address,string,string,address)" ∷ padded ∷ [] } ∷ []

abbrev deployed_again : Page Dashboard
deployed_again = record {
  state = record view { active_section = deploy; deployed_contract_address = some "0xsecond" };
  running = follow_program (services 3) view "0xabc" ∷ [];
}

follow-Publishes_example : Publishes (services 3) first_contract deployed_again
unfolding created_topic slice_from
follow-Publishes_example =
    follow-Publishes (services 3) view deployed_again [] [] "0xabc" receipt padded first_contract
      refl refl refl refl
