-- ===== src/Credstore/Tests.antt =====
-- credstore.go and file.go: a file that is being replaced.
use brother_connect.Base.{◌≡◌, refl, true, false, none, some, [], if◌then◌else◌}
use brother_connect.Configuration.{Credentials}
use brother_connect.Credstore.{
  BlobCodec, Disk, file_store, loaded, not_enrolled, rename_fails, stops_in_writing, load_from,
  save_to, save_file, clear_store, open_store,
}
use brother_connect.Credstore.Saving.{is_success, save_to-load_from}

abbrev shop : Credentials
shop = record {
  device_token = "t";
  token_type = "Bearer";
  tenant_id = "t1";
  obtained_at = 5;
  expires_at = 0;
  tenant = "shop";
  enrolled_url = "wss://example";
}

abbrev codec : BlobCodec
codec = record { encode_blob = λ c. some "{}"; decode_blob = λ blob. some shop }

abbrev disk : Disk
disk = record { keyring = []; kept_file = none; temporary = none }

first_save_cut_short :
    load_from codec file_store (save_to codec file_store shop (stops_in_writing "{") disk)
    ≡ not_enrolled
unfolding load_from save_to save_file
first_save_cut_short = refl

signed_out :
    load_from codec file_store (clear_store file_store (record disk { kept_file = some "{}" }))
    ≡ not_enrolled
unfolding load_from clear_store
signed_out = refl

save_to-load_from_example :
    let (store, d') = open_store false true disk in
    load_from codec store (save_to codec store shop (rename_fails true) d')
    ≡ (if is_success (rename_fails true) then loaded shop else load_from codec store disk)
save_to-load_from_example =
    save_to-load_from codec false true shop "{}" (rename_fails true) disk refl refl
