-- ===== src/Dashboard/Threads/Silent/Submit.antt =====
-- Uploads, the search for a token id and what follows a deployment leave the marks alone.
use web3_lab_public.Prelude.{
  ℕ, zero, suc, ◌+◌, ◌-◌, ◌/◌, String, List, Option, none, some, refl, is_present, is_truthy,
  option_or, ltb,
}
use web3_lab_public.Browser.{Reply, ok, thrown, is_ok}
use web3_lab_public.Program.{Program, settled}
use web3_lab_public.Program.Silent.{
  IsSilent, settled-IsSilent, bind-IsSilent, recover-IsSilent, choice-IsSilent, reply-IsSilent,
}
use web3_lab_public.Dashboard.State.{
  Dashboard, File, TokenType, erc20, erc721, erc1155, TxResult, token_name,
}
use web3_lab_public.Dashboard.Services.{Services, Presigned, Log}
use web3_lab_public.Dashboard.TokenId.{highest_id, search_fuel}
use web3_lab_public.Dashboard.TokenId.Programs.{search_program, finish_program, next_id_program}
use web3_lab_public.Dashboard.Upload.Programs.{
  put_program, presign_program, file_program, upload_program, metadata_program,
}
use web3_lab_public.Dashboard.Upload.{clear_upload}
use web3_lab_public.Dashboard.Submit.{created_topic, is_erc20_deploy, result_contract}
use web3_lab_public.Dashboard.Submit.Programs.{target_program, described_program}
use web3_lab_public.Dashboard.Submit.Programs.Deployment.{
  registered_program, icon_program, announce_icon, announce_program, publish_program,
  address_program, receipt_program, follow_program, followed_program,
}
use web3_lab_public.Dashboard.Submit.Programs.Whole.{
  icon_of_program, result_file_program, shown_program, result_program,
}
use web3_lab_public.Dashboard.Threads.{marks}

module _ (env : Services) where
  search_program-IsSilent :
      (contract : String) (fuel low top next_id : ℕ)
      → IsSilent marks (search_program env contract fuel low top next_id)
  unfolding search_program IsSilent
  search_program-IsSilent contract zero low top next_id = tt
  search_program-IsSilent contract (suc fuel) low top next_id =
      choice-IsSilent marks (ltb low top) _ _
        (go _ _ (search_program-IsSilent contract fuel (mid + 1) top next_id)
          (search_program-IsSilent contract fuel low mid mid))
        tt
    where
      mid : ℕ
      mid = (low + top - 1) / 2

      go :
          (p q : Program Dashboard (Option ℕ))
          → IsSilent marks p
          → IsSilent marks q
          → (r : Reply String)
          → IsSilent marks
              (elim r as (λ _. Program Dashboard (Option ℕ)) [ ok _ ↦ p | thrown _ ↦ q ])
      go p q h k (ok _) = h
      go p q h k (thrown _) = k

  finish_program-IsSilent :
      (contract : String) (o : Option ℕ) → IsSilent marks (finish_program env contract o)
  unfolding IsSilent
  finish_program-IsSilent contract none = tt
  finish_program-IsSilent contract (some n) = tt

  next_id_program-IsSilent : (contract : String) → IsSilent marks (next_id_program env contract)
  unfolding next_id_program
  next_id_program-IsSilent contract =
      bind-IsSilent marks (search_program env contract search_fuel 0 (highest_id + 1) 0) _
        (search_program-IsSilent contract search_fuel 0 (highest_id + 1) 0)
        (finish_program-IsSilent contract)

  module _ (view : Dashboard) where
    put_program-IsSilent :
        (file : File) (target : Presigned) → IsSilent marks (put_program env view file target)
    unfolding put_program IsSilent
    put_program-IsSilent file target = λ r.
        reply-IsSilent marks _ r (λ res. choice-IsSilent marks (is_ok res) _ _ ((λ s. refl), tt) tt)

    presign_program-IsSilent :
        (type contract id : String) (file : File)
        → IsSilent marks (presign_program env view type contract id file)
    unfolding presign_program IsSilent
    presign_program-IsSilent type contract id file = λ r. reply-IsSilent marks _ r (λ res.
        choice-IsSilent marks (is_ok res) _ _
          (bind-IsSilent marks (Program.pause (settled res.json)) _
            (settled-IsSilent marks res.json) (put_program-IsSilent file))
          tt)

    upload_program-IsSilent :
        (type contract id : String) → IsSilent marks (upload_program env view type contract id)
    unfolding upload_program IsSilent
    upload_program-IsSilent type contract id = go view.upload_file
      where
        go : (o : Option File) → IsSilent marks (file_program env view type contract id o)
        go none = tt
        go (some file) =
            recover-IsSilent marks _ _ ((λ s. refl), presign_program-IsSilent type contract id file)
              (λ x. ((λ s. refl), tt))

    registered_program-IsSilent :
        (contract : String) (o : Option String)
        → IsSilent marks (registered_program env view contract o)
    unfolding IsSilent
    registered_program-IsSilent contract o =
        choice-IsSilent marks (is_present o) _ _ (λ r. reply-IsSilent marks _ r (λ _. tt)) tt

    icon_program-IsSilent :
        (contract id : String) → IsSilent marks (icon_program env view contract id)
    unfolding icon_program
    icon_program-IsSilent contract id =
        bind-IsSilent marks (upload_program env view (token_name erc20) contract id) _
          (upload_program-IsSilent (token_name erc20) contract id)
          (registered_program-IsSilent contract)

    announce_icon-IsSilent :
        (contract : String) (o : Option File) → IsSilent marks (announce_icon env view contract o)
    unfolding IsSilent
    announce_icon-IsSilent contract none = tt
    announce_icon-IsSilent contract (some f) = icon_program-IsSilent contract "0"

    announce_program-IsSilent :
        (t : TokenType) (contract : String) → IsSilent marks (announce_program env view t contract)
    unfolding IsSilent
    announce_program-IsSilent erc20 contract = announce_icon-IsSilent contract view.upload_file
    announce_program-IsSilent erc721 contract = tt
    announce_program-IsSilent erc1155 contract = tt

    publish_program-IsSilent : (o : Option String) → IsSilent marks (publish_program env view o)
    unfolding IsSilent
    publish_program-IsSilent none = tt
    publish_program-IsSilent (some contract) =
        choice-IsSilent marks (is_truthy contract) _ _
          ((λ s. refl), announce_program-IsSilent view.active_token contract) tt

    address_program-IsSilent :
        (o : Option (Option String)) → IsSilent marks (address_program env view o)
    unfolding IsSilent
    address_program-IsSilent none = tt
    address_program-IsSilent (some none) = tt
    address_program-IsSilent (some (some topic)) = reply-IsSilent marks _ _ (λ _. tt)

    receipt_program-IsSilent : (o : Option (List Log)) → IsSilent marks (receipt_program env view o)
    unfolding IsSilent
    receipt_program-IsSilent none = tt
    receipt_program-IsSilent (some logs) =
        bind-IsSilent marks (address_program env view (created_topic env.event_id logs)) _
          (address_program-IsSilent (created_topic env.event_id logs)) publish_program-IsSilent

    pub followed_program-IsSilent :
        (o : Option TxResult) → IsSilent marks (followed_program env view o)
    unfolding follow_program IsSilent
    followed_program-IsSilent none = tt
    followed_program-IsSilent (some res) =
        choice-IsSilent marks (is_present res.transaction_hash) _ _
          (recover-IsSilent marks _ _
            (λ r. reply-IsSilent marks (receipt_program env view) r receipt_program-IsSilent)
            (λ e. tt))
          tt

    pub described_program-IsSilent :
        (id : String) (o : Option String) → IsSilent marks (described_program env view id o)
    unfolding metadata_program IsSilent
    described_program-IsSilent id o =
        choice-IsSilent marks (is_present o) _ _
          (λ r.
            reply-IsSilent marks _ r
              (λ res. choice-IsSilent marks (is_ok res) _ _ (settled-IsSilent marks res.json) tt))
          tt

    pub prepared-IsSilent :
        (id : String)
        → IsSilent marks
            (upload_program env view (token_name view.active_token) view.interact_token_address id)
    prepared-IsSilent id =
        upload_program-IsSilent (token_name view.active_token) view.interact_token_address id

    pub target_program-IsSilent : (t : TokenType) → IsSilent marks (target_program env view t)
    unfolding IsSilent
    target_program-IsSilent erc20 = tt
    target_program-IsSilent erc721 = next_id_program-IsSilent view.interact_token_address
    target_program-IsSilent erc1155 = tt

    icon_of_program-IsSilent : (o : Option String) → IsSilent marks (icon_of_program env view o)
    unfolding IsSilent clear_upload
    icon_of_program-IsSilent o =
        choice-IsSilent marks (is_present o) _ _
          (bind-IsSilent marks (icon_program env view (option_or o "") "") _
            (icon_program-IsSilent (option_or o "") "") (λ _. ((λ s. refl), tt)))
          tt

    result_file_program-IsSilent :
        (res : TxResult) (o : Option File) → IsSilent marks (result_file_program env view res o)
    unfolding IsSilent
    result_file_program-IsSilent res none = tt
    result_file_program-IsSilent res (some f) =
        choice-IsSilent marks (is_erc20_deploy env view view.active_section view.active_token) _ _
          (icon_of_program-IsSilent (result_contract env view res)) tt

    pub result_program-IsSilent : IsSilent marks (result_program env view)
    unfolding result_program IsSilent
    result_program-IsSilent = go view.tx_result
      where
        go : (o : Option TxResult) → IsSilent marks (shown_program env view o)
        go none = tt
        go (some res) = result_file_program-IsSilent res view.upload_file
