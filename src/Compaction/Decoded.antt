-- ===== src/Compaction/Decoded.antt =====
-- The entries that a compaction resolves come from Decode, so that their texts are valid UTF-8.
use file_dbv.Prelude.{
  ℕ, ◌≡◌, subst, Bool-cases, Option, none, some, List, [], ◌∷◌, Str, Map, insert as put, delete,
  All, inl, inr, nat_eq, arith, ◌==◌,
}
use file_dbv.Result.{Result, ok, or_error, or_error-eq-ok, ◌>>=◌, >>=-eq-ok}
use file_dbv.Store.{Entry, Codec, decode, fill_absent, verify}
use file_dbv.Store.RoundTrip.{CodecLaws, IsJson}
use file_dbv.Segment.{Segment, scan_all, scan_all_lines, split_lines, scan_token}
use file_dbv.Compaction.{latest_of, survives, surviving, latest_in, resolve_entries}
use file_dbv.Compaction.Rebalanced.{AllHaveFields, AllKeepFields}

abbrev AllJson : List Entry → Type 0
AllJson es = All (λ (e : Entry). IsJson e.fields) es

abbrev MapJson : Map ℕ Entry → Type 0
MapJson m = All (λ (p : ℕ × Entry). IsJson p.1.fields) m

ok_injective : {A : Type 0} {a b : A} → ok a ≡ ok b → a ≡ b
ok_injective h = cc

module _ (codec : Codec) where
  verify_itself : (e : Entry) (o : Option ℕ) (e' : Entry) → verify codec e o ≡ ok e' → e ≡ e'
  unfolding verify
  verify_itself e none e' h = cc
  verify_itself e (some want) e' h = ground arith

  module _ (laws : CodecLaws codec) where
    decode-IsJson : (line : Str) (e : Entry) → decode codec line ≡ ok e → IsJson e.fields
    unfolding decode fill_absent
    decode-IsJson line e h =
        let (l, parsed, rest) = >>=-eq-ok (or_error (codec.unmarshal_line line) _) _ h in
        let same : fill_absent l ≡ e = verify_itself (fill_absent l) l.crc e rest in
        subst (λ (x : Entry). IsJson x.fields) same
          (laws.unmarshal-IsJson l line (or_error-eq-ok _ _ parsed))

    scan_all_lines-AllJson :
        (ls : List Str) (es : List Entry) → scan_all_lines codec ls ≡ ok es → AllJson es
    unfolding scan_all_lines
    scan_all_lines-AllJson [] es h = subst AllJson (ok_injective h) tt
    scan_all_lines-AllJson (l ∷ ls) es h =
        let (token, cut, rest) = >>=-eq-ok (scan_token l) _ h in
        over token (scan_all_lines-AllJson ls) rest
      where
        over :
            (token : Str)
            → ((es' : List Entry) → scan_all_lines codec ls ≡ ok es' → AllJson es')
            → (elim token as (λ t. Result (List Entry)) [
              | [] ↦ scan_all_lines codec ls
              | x ∷ line ↦
                  (decode codec (x ∷ line) >>= λ e. scan_all_lines codec ls >>= λ es'. ok (e ∷ es'))
            ])
              ≡ ok es
            → AllJson es
        over [] again rest = again es rest
        over (x ∷ line) again rest =
            let (e, decoded, rest1) = >>=-eq-ok (decode codec (x ∷ line)) _ rest in
            let (es', scanned, rest2) = >>=-eq-ok (scan_all_lines codec ls) _ rest1 in
            subst AllJson (ok_injective rest2)
              (decode-IsJson (x ∷ line) e decoded, again es' scanned)

    delete-MapJson : (id : ℕ) (m : Map ℕ Entry) → MapJson m → MapJson (delete id m)
    unfolding delete
    delete-MapJson id [] h = tt
    delete-MapJson id ((i, e) ∷ m) (first, rest) = elim (Bool-cases (i == id)) [
      | inl same ↦ rw same (delete-MapJson id m rest)
      | inr other ↦ rw other (first, delete-MapJson id m rest)
    ]

    latest_of-MapJson :
        (es : List Entry) (m : Map ℕ Entry) → AllJson es → MapJson m → MapJson (latest_of es m)
    unfolding latest_of put
    latest_of-MapJson [] m all h = h
    latest_of-MapJson (e ∷ es) m (first, rest) h =
        latest_of-MapJson es (put e.id e m) rest (first, delete-MapJson e.id m h)

    latest_in-MapJson :
        (segs : List Segment) (m latest : Map ℕ Entry)
        → latest_in codec segs m ≡ ok latest
        → MapJson m
        → MapJson latest
    unfolding latest_in scan_all
    latest_in-MapJson [] m latest done h = subst MapJson (ok_injective done) h
    latest_in-MapJson (s ∷ segs) m latest done h =
        let (es, scanned, rest) = >>=-eq-ok (scan_all codec s) _ done in
        latest_in-MapJson segs (latest_of es m) latest rest
          (latest_of-MapJson es m (scan_all_lines-AllJson (split_lines s.bytes) es scanned) h)

    surviving-AllJson : (now : ℕ) (m : Map ℕ Entry) → MapJson m → AllJson (surviving now m)
    unfolding surviving
    surviving-AllJson now [] h = tt
    surviving-AllJson now ((i, e) ∷ m) (first, rest) = elim (Bool-cases (survives now e)) [
      | inl lives ↦ rw lives (first, surviving-AllJson now m rest)
      | inr gone ↦ rw gone (surviving-AllJson now m rest)
    ]

    both : (es : List Entry) → AllKeepFields es → AllJson es → AllHaveFields es
    both [] h j = tt
    both (e ∷ es) (h, hs) (j, js) = ((h, j), both es hs js)

    -- Resolved entries can be written and read back.
    pub resolve_entries-AllHaveFields :
        (now : ℕ) (segs : List Segment) (out : List Entry)
        → resolve_entries codec now segs ≡ ok out
        → AllKeepFields out
        → AllHaveFields out
    unfolding resolve_entries
    resolve_entries-AllHaveFields now segs out h keeps =
        let (latest, made, done) = >>=-eq-ok (latest_in codec segs []) _ h in
        both out keeps (
          subst AllJson (ok_injective done)
            (surviving-AllJson now latest (latest_in-MapJson segs [] latest made tt)))
