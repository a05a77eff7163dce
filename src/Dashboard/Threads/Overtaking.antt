-- ===== src/Dashboard/Threads/Overtaking.antt =====
-- The receipt of a deployment that comes after another deployment was begun.
use web3_lab_public.Prelude.{
  String, true, List, Option, none, some, ◌<>◌, ◌∷◌, ◌++◌, ◌≡◌, refl, is_truthy,
}
use web3_lab_public.Text.{slice_from}
use web3_lab_public.Browser.{ok, awaited}
use web3_lab_public.Program.{Program, settled, bind, recover}
use web3_lab_public.Program.Advance.{advance}
use web3_lab_public.Program.Crew.{Task, Page, Resumed}
use web3_lab_public.Dashboard.State.{Dashboard, File, TokenType, erc20, erc721, erc1155}
use web3_lab_public.Dashboard.Services.{Services, Log}
use web3_lab_public.Dashboard.Upload.Programs.{upload_program, presign_program}
use web3_lab_public.Dashboard.Submit.{created_topic}
use web3_lab_public.Dashboard.Submit.Programs.Deployment.{
  icon_program, announce_program, receipt_program, follow_program,
}
use web3_lab_public.Dashboard.Threads.{any_submission, Move}

-- A step after which the page shows a contract as the one that was deployed.
pub record Publishes (env : Services) (contract : String) (c : Page Dashboard) : Type 1 where
  pub next : Page Dashboard
  pub move : Move env (any_submission env) c next
  pub shown : next.state.deployed_contract_address ≡ some contract

module _ (env : Services) (view : Dashboard) where
  -- What a program that waits for a receipt does with its answer.
  abbrev with_receipt : List Log → Task Dashboard
  with_receipt logs =
      recover (bind (settled (ok (some logs))) (receipt_program env view)) (λ _. Program.give tt)

  announce-shown :
      (contract : String) (s : Dashboard)
      → s.deployed_contract_address ≡ some contract
      → (advance
          (recover (announce_program env view view.active_token contract) (λ _. Program.give tt))
          s).1.deployed_contract_address
        ≡ some contract
  unfolding advance recover bind icon_program upload_program presign_program
  announce-shown contract s h = go view.active_token view.upload_file refl
    where
      go :
          (t : TokenType) (f : Option File)
          → view.upload_file ≡ f
          → (advance
              (recover (announce_program env view t contract) (λ _. Program.give tt))
              s).1.deployed_contract_address
            ≡ some contract
      go erc20 none e = rw e h
      go erc20 (some f) e = rw e h
      go erc721 f e = h
      go erc1155 f e = h

  receipt-shown :
      (logs : List Log) (topic contract : String) (s : Dashboard)
      → created_topic env.event_id logs ≡ some (some topic)
      → env.get_address ("0x" <> slice_from 26 topic) ≡ ok contract
      → is_truthy contract ≡ true
      → (advance (with_receipt logs) s).1.deployed_contract_address ≡ some contract
  unfolding advance recover bind
  receipt-shown logs topic contract s e a t =
      rw (e, a, t)
        (announce-shown contract (record s { deployed_contract_address = some contract }) refl)

  -- While the receipt of a deployment is awaited, whatever else was done on the page since and whatever
  -- it shows by then: the page has a step, the answer with a receipt that announces a contract with an
  -- address that the ethers library takes, after which it shows that contract as the one deployed.
  pub follow-Publishes :
      (c : Page Dashboard) (before after : List (Task Dashboard)) (hash : String) (logs : List Log)
      (topic contract : String)
      → c.running ≡ before ++ follow_program env view hash ∷ after
      → created_topic env.event_id logs ≡ some (some topic)
      → env.get_address ("0x" <> slice_from 26 topic) ≡ ok contract
      → is_truthy contract ≡ true
      → Publishes env contract c
  unfolding follow_program recover
  follow-Publishes c before after hash logs topic contract r e a t = record {
    next = _;
    move = Move.resume (
        Resumed.answer before after (awaited hash) (λ u. env.wait_for_transaction u hash)
          (λ reply.
            recover (bind (settled reply) (receipt_program env view)) (λ _. Program.give tt))
          (ok (some logs)) r);
    shown = receipt-shown logs topic contract c.state e a t;
  }
