-- ===== src/Niimbot/Rfid/Tag.antt =====
-- client.go: a tag is read back as it was written.
use brother_connect.Base.{
  ℕ, ◌+◌, ◌*◌, ◌/◌, ◌%◌, ◌<◌, ◌≡◌, sym, ap, ◌∙◌, leb, length, length-append, take, drop,
  take-append, drop-append, take_all, drop_all, true, false, List, [], ◌∷◌, ◌++◌, arith,
}
use brother_connect.Niimbot.Rfid.{Rfid, parse_rfid}

-- The reply for a tag: the identifier, the two texts with their lengths, the paper, the type.
abbrev pub tag_bytes : Rfid → List ℕ
tag_bytes r =
    r.uuid
    ++ (length r.barcode
        ∷ (r.barcode
            ++ (length r.serial
                ∷ (r.serial
                    ++ ((r.total_paper / 256)
                        ∷ (r.total_paper % 256)
                        ∷ (r.used_paper / 256)
                        ∷ (r.used_paper % 256)
                        ∷ r.label_type
                        ∷ [])))))

take-here : (as_ bs : List ℕ) → take (length as_) (as_ ++ bs) ≡ as_
take-here as_ bs = take-append (length as_) as_ bs (omega arith) ∙ take_all as_

drop-here : (as_ bs : List ℕ) → drop (length as_) (as_ ++ bs) ≡ bs
drop-here as_ bs =
    drop-append (length as_) as_ bs (omega arith)
    ∙ ap (λ z. z ++ bs) (drop_all (length as_) as_ (omega arith))

-- For a tag that is there, with an identifier of eight bytes: what the printer sends for it is read
-- as that tag.
pub parse_rfid-tag_bytes :
    (r : Rfid) → r.present ≡ true → length r.uuid ≡ 8 → parse_rfid (tag_bytes r) ≡ r
unfolding parse_rfid
parse_rfid-tag_bytes r here eight =
    rw
      (
        long,
        uuid_first,
        uuid_gone,
        take-here r.barcode after_barcode,
        drop-here r.barcode after_barcode,
        take-here r.serial after_serial,
        drop-here r.serial after_serial,
        split r.total_paper,
        split r.used_paper,
      )
      (ap (λ p. record r { present = p }) (sym here))
  where
    after_serial : List ℕ
    after_serial =
        (r.total_paper / 256)
        ∷ (r.total_paper % 256)
        ∷ (r.used_paper / 256)
        ∷ (r.used_paper % 256)
        ∷ r.label_type
        ∷ []

    after_barcode : List ℕ
    after_barcode = length r.serial ∷ (r.serial ++ after_serial)

    after_uuid : List ℕ
    after_uuid = length r.barcode ∷ (r.barcode ++ after_barcode)

    long : leb (length (r.uuid ++ after_uuid)) 1 ≡ false
    long =
        let n : 1 < length (r.uuid ++ after_uuid) =
          omega (arith, eight, length-append r.uuid after_uuid) in
        ground arith

    uuid_first : take 8 (r.uuid ++ after_uuid) ≡ r.uuid
    uuid_first = ap (λ n. take n (r.uuid ++ after_uuid)) (sym eight) ∙ take-here r.uuid after_uuid

    uuid_gone : drop 8 (r.uuid ++ after_uuid) ≡ after_uuid
    uuid_gone = ap (λ n. drop n (r.uuid ++ after_uuid)) (sym eight) ∙ drop-here r.uuid after_uuid

    split : (v : ℕ) → v / 256 * 256 + v % 256 ≡ v
    split v = omega arith
