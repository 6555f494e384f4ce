-- ===== src/Credstore/Saving.antt =====
-- credstore.go and file.go: what is loaded after a save that may be cut short.
use brother_connect.Base.{
  ◌≡◌, refl, ap, ◌∙◌, Bool, true, false, String, some, insert, lookup-insert, lookup-delete,
  if◌then◌else◌,
}
use brother_connect.Configuration.{Credentials}
use brother_connect.Credstore.{
  account, probe, Disk, BlobCodec, Store, keyring_store, file_store, loaded, SaveEnd,
  stops_before_writing, stops_before_rename, succeeds, stops_in_writing, rename_fails, read_blob,
  load_from, save_file, save_keyring, save_blob, save_to, keyring_usable, open_store,
}

abbrev pub is_success : SaveEnd → Bool
is_success succeeds = true
is_success _ = false

-- `Open`, whatever comes of its probe, leaves what either store holds.
open_store-kept :
    (codec : BlobCodec) (store : Store) (sets deletes : Bool) (d : Disk)
    → load_from codec store (open_store sets deletes d).1 ≡ load_from codec store d
unfolding load_from open_store keyring_usable
open_store-kept codec keyring_store false deletes d = refl
open_store-kept codec keyring_store true true d =
    ap (λ found. read_blob codec found)
      (lookup-delete probe account (insert probe "1" d.keyring)
        ∙ lookup-insert probe account "1" d.keyring)
open_store-kept codec keyring_store true false d =
    ap (λ found. read_blob codec found) (lookup-insert probe account "1" d.keyring)
open_store-kept codec file_store false deletes d = refl
open_store-kept codec file_store true true d = refl
open_store-kept codec file_store true false d = refl

save_blob-load_from :
    (codec : BlobCodec) (store : Store) (c : Credentials) (blob : String) (end : SaveEnd) (d : Disk)
    → codec.decode_blob blob ≡ some c
    → load_from codec store (save_blob codec store (some blob) end d)
      ≡ (if is_success end then loaded c else load_from codec store d)
unfolding load_from save_file save_keyring
save_blob-load_from codec keyring_store c blob stops_before_writing d back = refl
save_blob-load_from codec keyring_store c blob stops_before_rename d back = refl
save_blob-load_from codec keyring_store c blob (stops_in_writing part) d back = refl
save_blob-load_from codec keyring_store c blob (rename_fails removed) d back = refl
save_blob-load_from codec keyring_store c blob succeeds d back =
    ap (λ found. read_blob codec found) (lookup-insert account account blob d.keyring)
    ∙ rw back refl
save_blob-load_from codec file_store c blob stops_before_writing d back = refl
save_blob-load_from codec file_store c blob stops_before_rename d back = refl
save_blob-load_from codec file_store c blob (stops_in_writing part) d back = refl
save_blob-load_from codec file_store c blob (rename_fails true) d back = refl
save_blob-load_from codec file_store c blob (rename_fails false) d back = refl
save_blob-load_from codec file_store c blob succeeds d back = rw back refl

-- A store is opened, whatever comes of the probe, and credentials are saved that the codec writes and
-- reads back: if the save comes to its end, they are what is then loaded from that store; if it is cut
-- short at any place, by an error or a crash, what was stored before is still loaded.
pub save_to-load_from :
    (codec : BlobCodec) (sets deletes : Bool) (c : Credentials) (blob : String) (end : SaveEnd)
    (d : Disk)
    → codec.encode_blob c ≡ some blob
    → codec.decode_blob blob ≡ some c
    → let (store, d') = open_store sets deletes d in
      load_from codec store (save_to codec store c end d')
      ≡ (if is_success end then loaded c else load_from codec store d)
unfolding save_to
save_to-load_from codec sets deletes c blob end d writes back =
    let (store, d') = open_store sets deletes d in
    ap (λ b. load_from codec store (save_blob codec store b end d')) writes
    ∙ save_blob-load_from codec store c blob end d' back
    ∙ ap (λ before. if is_success end then loaded c else before)
        (open_store-kept codec store sets deletes d)
