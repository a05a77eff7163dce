-- ===== src/Examples/Nft.antt =====
-- The next token id of small and large collections, and the artwork whose metadata is refused.
use web3_lab_public.Prelude.{ℕ, ◌≤◌, ◌+◌, ◌≡◌, refl, arith, length, some, [], ◌∷◌, ◌++◌}
use web3_lab_public.Text.{print}
use web3_lab_public.Browser.{ok, thrown, World, Request, fetched}
use web3_lab_public.Dashboard.State.{Dashboard, erc1155, token_name}
use web3_lab_public.Dashboard.Upload.{upload_image, generate_metadata}
use web3_lab_public.Dashboard.Upload.Uploading.{wire_presign, stored, upload_image-stored}
use web3_lab_public.Dashboard.Identities.Linking.{body_of}
use web3_lab_public.Dashboard.TokenId.{get_next_token_id}
use web3_lab_public.Dashboard.TokenId.Laws.{HasMinted, get_next_token_id-count}
use web3_lab_public.Dashboard.TokenId.Bounds.{get_next_token_id_total}
use web3_lab_public.Dashboard.Submit.{handle_submit}
use web3_lab_public.Dashboard.Submit.Laws.{minting, handle_submit-metadata}
use web3_lab_public.Examples.Data.{services, view, world, image}

services-HasMinted : (n : ℕ) → HasMinted (services n) "0xnft" n
services-HasMinted n = record {
  owned = λ t i h. ("0xholder", ground arith);
  free = λ t i h. ("ERC721NonexistentToken", ground arith);
}

get_next_token_id-count_example :
    (get_next_token_id (services 20000) "0xnft" world).0 ≡ ok (print 0)
get_next_token_id-count_example =
    get_next_token_id-count (services 20000) "0xnft" 20000 world (services-HasMinted 20000)

get_next_token_id_total_example :
    (k : ℕ) × ((get_next_token_id (services 3) "0xnft" world).0 ≡ ok (print k))
    × ((get_next_token_id (services 3) "0xnft" world).1.state ≡ world.state)
    × ((get_next_token_id (services 3) "0xnft" world).1.storage ≡ world.storage)
    × (length (get_next_token_id (services 3) "0xnft" world).1.trace ≤ length world.trace + 14)
get_next_token_id_total_example = get_next_token_id_total (services 3) "0xnft" world

abbrev stored_image : World Dashboard
stored_image =
    (upload_image (services 3) (minting view image) (token_name erc1155) view.interact_token_address
      view.interact_token_id world).1

abbrev refused_metadata : World Dashboard
refused_metadata =
    (generate_metadata (services 3) (minting view image) (token_name erc1155)
      view.interact_token_address view.interact_token_id "https://img.lab" stored_image).1

image_is_stored :
    upload_image
      (services 3)
      (minting view image)
      (token_name erc1155)
      view.interact_token_address
      view.interact_token_id
      world
    ≡ (ok (some "https://img.lab"), stored_image)
unfolding upload_image
image_is_stored = refl

metadata_is_refused :
    generate_metadata
      (services 3)
      (minting view image)
      (token_name erc1155)
      view.interact_token_address
      view.interact_token_id
      "https://img.lab"
      stored_image
    ≡ (thrown "Metadata generation failed", refused_metadata)
unfolding generate_metadata
metadata_is_refused = refl

handle_submit-metadata_example :
    (handle_submit (services 3) (minting view image) world
      ≡ (thrown "Metadata generation failed", refused_metadata))
    × (refused_metadata.state.error ≡ world.state.error)
handle_submit-metadata_example =
    handle_submit-metadata (services 3) view image "https://img.lab" "Metadata generation failed"
      world stored_image refused_metadata refl image_is_stored metadata_is_refused

-- The request for an address to store the image at.
abbrev presign : Request
presign = wire_presign (services 3) (minting view image) "ERC1155" "0xnft" "7" image

upload_image-stored_example :
    upload_image (services 3) (minting view image) "ERC1155" "0xnft" "7" world
    ≡ stored
        (services 3)
        (minting view image)
        image
        (body_of ((services 3).presigned_url world.trace presign))
        (world.trace ++ fetched presign ∷ [])
        world
upload_image-stored_example =
    upload_image-stored (services 3) (minting view image) "ERC1155" "0xnft" "7" image world refl
