-- ===== src/Credstore.antt =====
-- internal/credstore: the stored credentials, in the credential store of the system or in a file. The
-- credential store is a map, a file its content, and how far each call comes is given, so that a
-- crash at any place is a run. The JSON codec is given.
pub mod Saving
mod Tests
use brother_connect.Base.{
  Bool, true, false, String, Option, none, some, List, [], ◌∷◌, lookup, insert, delete,
  if◌then◌else◌,
}
use brother_connect.Configuration.{Credentials}

abbrev pub account : String
account = "device-credentials"

abbrev pub probe : String
probe = "__probe__"

-- The credential store of the system, the file, and the temporary file beside it.
pub record Disk : Type 0 where
  pub keyring : List (String × String)
  pub kept_file : Option String
  pub temporary : Option String

pub record BlobCodec : Type 0 where
  pub encode_blob : Credentials → Option String
  pub decode_blob : String → Option Credentials

pub data Store : Type 0 where
  keyring_store file_store : Store

pub data Loaded : Type 0 where
  loaded : Credentials → Loaded
  not_enrolled not_readable : Loaded

-- How far a `Save` comes after the encoding, by an error or a crash: not to the writing, some part of
-- the temporary file, the whole of it, a failing `Rename` with or without the removal, or the end. For
-- the credential store only the last one counts.
pub data SaveEnd : Type 0 where
  stops_before_writing stops_before_rename succeeds : SaveEnd
  stops_in_writing : String → SaveEnd
  rename_fails : Bool → SaveEnd

module _ (codec : BlobCodec) where
  abbrev pub read_blob : Option String → Loaded
  read_blob none = not_enrolled
  read_blob (some blob) = elim (codec.decode_blob blob) [ none ↦ not_readable | some c ↦ loaded c ]

  -- `Load` of the two stores, when the store can be read.
  unfoldable pub load_from : Store → Disk → Loaded
  load_from keyring_store d = read_blob (lookup account d.keyring)
  load_from file_store d = read_blob d.kept_file

  -- `fileStore.Save` from the encoding on.
  unfoldable pub save_file : String → SaveEnd → Disk → Disk
  save_file blob stops_before_writing d = d
  save_file blob (stops_in_writing part) d = record d { temporary = some part }
  save_file blob stops_before_rename d = record d { temporary = some blob }
  save_file blob (rename_fails true) d = record d { temporary = none }
  save_file blob (rename_fails false) d = record d { temporary = some blob }
  save_file blob succeeds d = record d { kept_file = some blob; temporary = none }

  -- `keyringStore.Save` from the encoding on.
  unfoldable pub save_keyring : String → SaveEnd → Disk → Disk
  save_keyring blob succeeds d = record d { keyring = insert account blob d.keyring }
  save_keyring blob other d = d

  abbrev pub save_blob : Store → Option String → SaveEnd → Disk → Disk
  save_blob store none end d = d
  save_blob keyring_store (some blob) end d = save_keyring blob end d
  save_blob file_store (some blob) end d = save_file blob end d

  -- `Save` of the two stores.
  unfoldable pub save_to : Store → Credentials → SaveEnd → Disk → Disk
  save_to store c end d = save_blob store (codec.encode_blob c) end d

-- `Clear` of the two stores, when it succeeds.
unfoldable pub clear_store : Store → Disk → Disk
clear_store keyring_store d = record d { keyring = delete account d.keyring }
clear_store file_store d = record d { kept_file = none }

-- `keyringUsable`: whether the probe can be written, and the store afterwards, with the probe deleted
-- or not.
unfoldable pub keyring_usable : Bool → Bool → Disk → Bool × Disk
keyring_usable false deletes d = (false, d)
keyring_usable true true d =
    (true, record d { keyring = delete probe (insert probe "1" d.keyring) })
keyring_usable true false d = (true, record d { keyring = insert probe "1" d.keyring })

-- `Open`
unfoldable pub open_store : Bool → Bool → Disk → Store × Disk
open_store sets deletes d =
    let (usable, d') = keyring_usable sets deletes d in
    (if usable then keyring_store else file_store, d')
