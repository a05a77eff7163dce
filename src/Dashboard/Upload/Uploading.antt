-- ===== src/Dashboard/Upload/Uploading.antt =====
-- What uploading the chosen file sends, and what it leaves.
use web3_lab_public.Prelude.{
  String, Bool, false, [], ◌∷◌, ◌++◌, Option, none, some, ◌<>◌, ◌≡◌, refl, arith, is_truthy,
  text_or, if◌then◌else◌,
}
use web3_lab_public.Browser.{Reply, ok, thrown, Request, World, Trace, Response, is_ok, fetched}
use web3_lab_public.Dashboard.State.{File, UploadProgress, done, error, Dashboard}
use web3_lab_public.Dashboard.Services.{Services, Presigned}
use web3_lab_public.Dashboard.Identities.Linking.{body_of}
use web3_lab_public.Dashboard.Transaction.Requests.{token_or_null}
use web3_lab_public.Dashboard.Upload.{
  file_extension, presign_request, put_request, put_image, upload_file, upload_image,
}

abbrev pub taken : {A : Type 0} → Reply (Response A) → Bool
taken (thrown e) = false
taken (ok res) = is_ok res

-- The file as it is stored; a file without a type is taken for a PNG image.
abbrev pub wire_put : String → File → Request
wire_put url file = record {
  method = "PUT";
  url = url;
  headers = ("Content-Type", if is_truthy file.type then file.type else "image/png") ∷ [];
  body = ("file", file.name) ∷ [];
}

module _ (env : Services) (view : Dashboard) where
  abbrev pub wire_presign : String → String → String → File → Request
  wire_presign token_type contract token_id file = record {
    method = "POST";
    url = env.urls.gateway <> "/api/v1/storage/presigned-url";
    headers =
        ("Content-Type", "application/json")
        ∷ ("Authorization", "Bearer " <> token_or_null view.token)
        ∷ [];
    body =
        ("token_type", token_type)
        ∷ ("contract_address", contract)
        ∷ ("token_id", token_id)
        ∷ ("file_extension", file_extension file.name)
        ∷ [];
  }

  text_or_lem : (t d : String) → text_or t d ≡ (if is_truthy t then t else d)
  text_or_lem String.[] d = refl
  text_or_lem (String.◌∷◌ c t) d = refl

  put_request-wire :
      (url : String) (file : File) → put_request env view url file ≡ wire_put url file
  unfolding put_request
  put_request-wire url file = rw (text_or_lem file.type "image/png") refl

  abbrev marked : UploadProgress → Trace → World Dashboard → World Dashboard
  marked progress t w = record {
    state = record w.state { upload_progress = progress };
    storage = w.storage;
    trace = t;
  }

  -- The result and the world after the address to upload to is known, or is not.
  abbrev pub stored :
      File → Option Presigned → Trace → World Dashboard → Reply (Option String) × World Dashboard
  stored file none t w = (ok none, marked error t w)
  stored file (some target) t w =
      let put = wire_put target.upload_url file in
      if taken (env.put_file t put)
      then (ok (some target.public_url), marked done (t ++ fetched put ∷ []) w)
      else (ok none, marked error (t ++ fetched put ∷ []) w)

  -- For a chosen file an address is asked of the gateway with the session's token, and if it is
  -- given the file is put there, with its type. The upload never fails: if both requests are taken
  -- its result is the public address and its mark is `done`, else there is no result and the mark is
  -- `error`. Nothing else of the page changes, and the storage does not.
  pub upload_image-stored :
      (token_type contract token_id : String) (file : File) (w : World Dashboard)
      → view.upload_file ≡ some file
      → let presign = wire_presign token_type contract token_id file in
        upload_image env view token_type contract token_id w
        ≡ stored file
            (body_of (env.presigned_url w.trace presign))
            (w.trace ++ fetched presign ∷ [])
            w
  unfolding upload_image upload_file put_image presign_request
  upload_image-stored token_type contract token_id file w chosen = go _ refl
    where
      presign : Request
      presign = wire_presign token_type contract token_id file

      Goal : Type 0
      Goal =
          upload_image env view token_type contract token_id w
          ≡ stored file (body_of (env.presigned_url w.trace presign))
              (w.trace ++ fetched presign ∷ []) w

      asked : Trace
      asked = w.trace ++ fetched presign ∷ []

      put :
          (res : Response Presigned) (target : Presigned) (r : Reply (Response (Unit {0})))
          → env.presigned_url w.trace presign ≡ ok res
          → res.json ≡ ok target
          → env.put_file asked (wire_put target.upload_url file) ≡ r
          → put_request env view target.upload_url file ≡ wire_put target.upload_url file
          → Goal
      put res target (thrown m) e j p q = ground (arith, chosen, e, j, p, q)
      put res target (ok answer) e j p q = ground (arith, chosen, e, j, p, q)

      read :
          (res : Response Presigned) (j : Reply Presigned)
          → env.presigned_url w.trace presign ≡ ok res
          → res.json ≡ j
          → Goal
      read res (thrown m) e j = ground (arith, chosen, e, j)
      read res (ok target) e j = put res target _ e j refl (put_request-wire target.upload_url file)

      go : (r : Reply (Response Presigned)) → env.presigned_url w.trace presign ≡ r → Goal
      go (thrown m) e = ground (arith, chosen, e)
      go (ok res) e = read res res.json e refl
