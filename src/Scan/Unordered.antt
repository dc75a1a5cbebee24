-- ===== src/Scan/Unordered.antt =====
-- scanUnordered of engine/scan.go against the whole list of matches.
use file_dbv.Prelude.{
  ℕ, zero, suc, ◌+◌, ◌≡◌, ◌≢◌, refl, sym, ap, ◌∙◌, Bool-cases, Option, none, some, List, [], ◌∷◌,
  ◌++◌, Str, length, inl, inr, ◌⊎◌, map, drop, take, leb, arith, append_assoc, append-nil,
  if◌then◌else◌,
}
use file_dbv.Result.{Error}
use file_dbv.Store.{Codec}
use file_dbv.Query.{Format, Filter, matches}
use file_dbv.Collection.{Collection}
use file_dbv.Scan.{
  ScanResult, Flow, next, halt, state_of, error_of, data_of, Walk, Page, visit_row, and_then,
  with_walk, finalize_record, visit_unordered, first_page, scan_unordered,
}
use file_dbv.Scan.Rows.{rows_of, feed, for_each_match-feed}

unfoldable pub matching : Format → Filter → List ScanResult → List ScanResult
matching f filter [] = []
matching f filter (r ∷ rs) =
    let rest = matching f filter rs in
    if matches f filter (data_of r.fields) then r ∷ rest else rest

-- No limit is 0.
abbrev pub page_of : ℕ → ℕ → List ScanResult → List ScanResult
page_of offset zero ms = drop offset ms
page_of offset (suc limit) ms = take (suc limit) (drop offset ms)

-- A page that is full ends the scan before an error is met.
abbrev pub page_error : ℕ → ℕ → List ScanResult → Option Error → Option Error
page_error offset zero ms end = end
page_error offset (suc limit) ms end = if leb (offset + suc limit) (length ms) then none else end

module _ (codec : Codec) (f : Format) (sort_ids : List ℕ → List ℕ) (filter : Filter)
    (fields : List Str) where
  -- What is left of a scan, with `o` rows to skip and `q` rows to go.
  abbrev Left : ℕ → ℕ → List ScanResult → Option Error → List ScanResult → Flow (Walk Page) → Type 0
  Left o q ms end out done =
      ((state_of done).acc.out ≡ out ++ map (finalize_record fields) (page_of o q ms))
      × (error_of done ≡ page_error o q ms end)

  emitted_page : ScanResult → Page → Page
  emitted_page r p = record p {
    emitted = p.emitted + 1;
    out = p.out ++ finalize_record fields r ∷ [];
  }

  visit-skip :
      (offset limit o : ℕ) (r : ScanResult) (p : Page)
      → p.skipped + suc o ≡ offset
      → visit_unordered offset limit fields r p ≡ next (record p { skipped = p.skipped + 1 })
  unfolding visit_unordered
  visit-skip offset limit o r p at = ground arith

  visit-more :
      (offset limit q : ℕ) (r : ScanResult) (p : Page)
      → p.skipped + 0 ≡ offset
      → (limit ≡ 0) ⊎ (p.emitted + suc (suc q) ≡ limit)
      → visit_unordered offset limit fields r p ≡ next (emitted_page r p)
  unfolding visit_unordered emitted_page
  visit-more offset limit q r p at (inl none_set) = ground arith
  visit-more offset limit q r p at (inr left) = ground arith

  visit-last :
      (offset limit : ℕ) (r : ScanResult) (p : Page)
      → p.skipped + 0 ≡ offset
      → p.emitted + 1 ≡ limit
      → visit_unordered offset limit fields r p ≡ halt none (emitted_page r p)
  unfolding visit_unordered emitted_page
  visit-last offset limit r p at left = ground arith

  drop_nil : (o : ℕ) → drop {A = ScanResult} o [] ≡ []
  drop_nil zero = refl
  drop_nil (suc o) = refl

  page_nil : (o q : ℕ) → page_of o q [] ≡ []
  page_nil o zero = drop_nil o
  page_nil o (suc q) = ap (take (suc q)) (drop_nil o)

  error_nil : (o q : ℕ) (end : Option Error) → page_error o q [] end ≡ end
  error_nil o zero end = refl
  error_nil o (suc q) end = ground arith

  nothing-Left :
      (visit : ScanResult → Page → Flow Page) (o q : ℕ) (end : Option Error) (w : Walk Page)
      → Left o q [] end w.acc.out (feed codec f sort_ids visit filter [] end w)
  unfolding feed
  nothing-Left visit o q none w = (
    sym (append-nil w.acc.out)
        ∙ ap (λ (t : List ScanResult). w.acc.out ++ map (finalize_record fields) t)
            (sym (page_nil o q)),
    sym (error_nil o q none),
  )
  nothing-Left visit o q (some x) w = (
    sym (append-nil w.acc.out)
        ∙ ap (λ (t : List ScanResult). w.acc.out ++ map (finalize_record fields) t)
            (sym (page_nil o q)),
    sym (error_nil o q (some x)),
  )

  -- How far a page has come.
  abbrev IsAt : ℕ → ℕ → ℕ → ℕ → Page → Type 0
  IsAt offset limit o q p =
      (p.skipped + o ≡ offset) × (((limit ≡ 0) × (q ≡ 0)) ⊎ ((p.emitted + q ≡ limit) × (q ≢ 0)))

  one_more :
      (q : ℕ) (r : ScanResult) (ms : List ScanResult) (out : List ScanResult)
      → (out ++ finalize_record fields r ∷ []) ++ map (finalize_record fields) ms
        ≡ out ++ map (finalize_record fields) (r ∷ ms)
  one_more q r ms out =
      append_assoc out (finalize_record fields r ∷ []) (map (finalize_record fields) ms)

  no_limit :
      (limit e : ℕ)
      → ((limit ≡ 0) × (◌≡◌ {A = ℕ} 0 0)) ⊎ ((e + 0 ≡ limit) × (◌≢◌ {A = ℕ} 0 0))
      → limit ≡ 0
  no_limit limit e (inl (none_set, same)) = none_set
  no_limit limit e (inr (left, some_left)) = absurd (some_left refl)

  some_left :
      (limit e q : ℕ)
      → ((limit ≡ 0) × (suc q ≡ 0)) ⊎ ((e + suc q ≡ limit) × (suc q ≢ 0))
      → e + suc q ≡ limit
  some_left limit e q (inl (none_set, same)) = absurd (omega (arith, same))
  some_left limit e q (inr (left, other)) = left

  error_skip :
      (o q : ℕ) (r : ScanResult) (ms : List ScanResult) (end : Option Error)
      → page_error o (suc q) ms end ≡ page_error (suc o) (suc q) (r ∷ ms) end
  error_skip o q r ms end = ground arith

  error_take :
      (q : ℕ) (r : ScanResult) (ms : List ScanResult) (end : Option Error)
      → page_error 0 (suc q) ms end ≡ page_error 0 (suc (suc q)) (r ∷ ms) end
  error_take q r ms end = ground arith

  error_last :
      (r : ScanResult) (ms : List ScanResult) (end : Option Error)
      → none ≡ page_error 0 1 (r ∷ ms) end
  error_last r ms end = ground arith

  -- A row that matches, and the rows after it.
  advance :
      (offset limit : ℕ) (rs : List ScanResult) (end : Option Error) (r : ScanResult) (n o q : ℕ)
      (p : Page)
      → ((o' q' : ℕ) (w : Walk Page)
          → IsAt offset limit o' q' w.acc
          → Left o' q'
              (matching f filter rs)
              end
              w.acc.out
              (feed codec f sort_ids (visit_unordered offset limit fields) filter rs end w))
      → IsAt offset limit o q p
      → Left o q (r ∷ matching f filter rs) end p.out (
          and_then
            (with_walk n (visit_unordered offset limit fields r p))
            (feed codec f sort_ids (visit_unordered offset limit fields) filter rs end))
  unfolding emitted_page
  advance offset limit rs end r n (suc o) zero p again (at, left) =
      let p' = record p { skipped = p.skipped + 1 } in
      rw (visit-skip offset limit o r p at)
        (again o zero (record { scanned = n; acc = p' }) (omega (arith, at), left))
  advance offset limit rs end r n (suc o) (suc q) p again (at, left) =
      let p' = record p { skipped = p.skipped + 1 } in
      let (out, error) =
        again o (suc q) (record { scanned = n; acc = p' }) (omega (arith, at), left) in
      rw (visit-skip offset limit o r p at)
        (out, error ∙ error_skip o q r (matching f filter rs) end)
  advance offset limit rs end r n zero zero p again (at, left) =
      let (out, error) =
        again zero zero (record { scanned = n; acc = emitted_page r p })
          (at, inl (no_limit limit p.emitted left, refl)) in
      rw (visit-more offset limit 0 r p at (inl (no_limit limit p.emitted left)))
        (out ∙ one_more 0 r (matching f filter rs) p.out, error)
  advance offset limit rs end r n zero (suc zero) p again (at, left) =
      rw (visit-last offset limit r p at (some_left limit p.emitted 0 left))
        (refl, error_last r (matching f filter rs) end)
  advance offset limit rs end r n zero (suc (suc q)) p again (at, left) =
      let (out, error) =
        again zero (suc q) (record { scanned = n; acc = emitted_page r p })
          (
            at,
            inr (
              omega (arith, some_left limit p.emitted (suc q) left),
              λ e. absurd (omega (arith, e)),
            ),
          ) in
      rw (visit-more offset limit q r p at (inr (some_left limit p.emitted (suc q) left))) (
        out ∙ one_more 0 r (take (suc q) (matching f filter rs)) p.out,
        error ∙ error_take q r (matching f filter rs) end,
      )

  feed-Left :
      (offset limit : ℕ) (rs : List ScanResult) (end : Option Error) (o q : ℕ) (w : Walk Page)
      → IsAt offset limit o q w.acc
      → Left o q
          (matching f filter rs)
          end
          w.acc.out
          (feed codec f sort_ids (visit_unordered offset limit fields) filter rs end w)
  unfolding feed matching visit_row
  feed-Left offset limit [] end o q w at =
      nothing-Left (visit_unordered offset limit fields) o q end w
  feed-Left offset limit (r ∷ rs) end o q w at =
      elim (Bool-cases (matches f filter (data_of r.fields))) [
        | inr no_match ↦
            rw (feed, visit_row, matching, no_match)
              (feed-Left offset limit rs end o q (record w { scanned = w.scanned + 1 }) at)
        | inl match ↦
            rw (feed, visit_row, matching, match)
              (advance offset limit rs end r (w.scanned + 1) o q w.acc
                (feed-Left offset limit rs end) at)
      ]

  starts-IsAt : (offset limit : ℕ) → IsAt offset limit offset limit first_page.acc
  starts-IsAt offset zero = (omega arith, inl (refl, refl))
  starts-IsAt offset (suc limit) = (omega arith, inr (omega arith, λ e. absurd (omega (arith, e))))

  -- A scan without an order yields the page of the list of all matches: of the rows that the
  -- candidate ids or else the segments give, the ones that match the filter, without the first
  -- `offset` of them and no more than `limit` if that is not 0, each with the fields that were
  -- asked for. Its error is the one that ends the reading of the rows, unless a full page ended
  -- the scan before.
  pub scan_unordered_lem :
      (offset limit now : ℕ) (c : Collection)
      → let rows = rows_of codec f sort_ids now c filter in
        let ms = matching f filter rows.0 in
        let scanned = scan_unordered codec f sort_ids offset limit fields filter now c in
        (scanned.1 ≡ map (finalize_record fields) (page_of offset limit ms))
        × (scanned.0 ≡ page_error offset limit ms rows.1)
  unfolding scan_unordered
  scan_unordered_lem offset limit now c =
      let rows = rows_of codec f sort_ids now c filter in
      let same =
        for_each_match-feed codec f sort_ids (visit_unordered offset limit fields) filter now c
          first_page in
      let (out, error) =
        feed-Left offset limit rows.0 rows.1 offset limit first_page (starts-IsAt offset limit) in
      (ap (λ (a : Flow (Walk Page)). (state_of a).acc.out) same ∙ out, ap error_of same ∙ error)
