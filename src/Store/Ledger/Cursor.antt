-- ===== src/Store/Ledger/Cursor.antt =====
-- internal/postgres/ledger_repo.go: a cursor names the place that it was made of.
use jungle.Base.{◌≡◌, refl, String, false, some}
use jungle.Values.{Uuid, Time}
use jungle.Result.{ok}
use jungle.Store.Ledger.{
  Codec, append, is_bar, split_bar, encode_ledger_cursor, decode_ledger_cursor,
}

-- No character of the text is a bar.
abbrev pub HasNoBar : String → Type 0
HasNoBar String.[] = Unit
HasNoBar (String.◌∷◌ c s) = (is_bar c ≡ false) × HasNoBar s

split_bar-append : (a b : String) → HasNoBar a → split_bar (append a (append "|" b)) ≡ some (a, b)
unfolding split_bar append
split_bar-append String.[] b h = refl
split_bar-append (String.◌∷◌ c a) b (first, h) = rw (first, split_bar-append a b h) refl

-- The packages behind a cursor read back what they wrote, and the text of a time has no bar.
pub record IsFaithful (codec : Codec) : Type 0 where
  pub decodes : (s : String) → codec.decode (codec.encode s) ≡ some s
  pub parses_time : (t : Time) → codec.parse_time (codec.format_time t) ≡ some t
  pub parses_uuid : (id : Uuid) → codec.parse_uuid (codec.uuid_text id) ≡ some id
  pub has_no_bar : (t : Time) → HasNoBar (codec.format_time t)

-- Over packages that read back what they wrote, the cursor of a place in the ledger is decoded to
-- that place.
pub decode-encode_ledger_cursor :
    (codec : Codec) (t : Time) (id : Uuid)
    → IsFaithful codec
    → decode_ledger_cursor codec (encode_ledger_cursor codec t id) ≡ ok (t, id)
unfolding decode_ledger_cursor encode_ledger_cursor
decode-encode_ledger_cursor codec t id faithful =
    rw
      (
        faithful.decodes (append (codec.format_time t) (append "|" (codec.uuid_text id))),
        split_bar-append (codec.format_time t) (codec.uuid_text id) (faithful.has_no_bar t),
        faithful.parses_time t,
        faithful.parses_uuid id,
      )
      refl
