-- ===== src/Recovery/Stale.antt =====
-- load of engine/collection.go after a crash that left an index.json behind: the checksum and
-- segmentsValid say nothing about what was appended after the index was persisted.
use file_dbv.Prelude.{
  ℕ, ◌+◌, ◌≤◌, ◌≡◌, refl, sym, ap, true, false, Bool-cases, Option, none, some, List, [], ◌∷◌, ◌++◌,
  map, inl, inr, arith, nat_eq, nat_beq_iff, Str, Map, length, lookup, leb, length-append,
  append_assoc,
}
use file_dbv.Result.{ok}
use file_dbv.Json.{Data}
use file_dbv.Store.{Codec, Entry, newline}
use file_dbv.Segment.{Segment, append, seal}
use file_dbv.Segment.Append.{append_line}
use file_dbv.Index
use file_dbv.Index.{Index, IndexEntry, segments_valid, inside}
use file_dbv.Query.{Format}
use file_dbv.Sidx.{SecondaryIndex}
use file_dbv.Collection.{
  Collection, CollectionConfig, insert, inserted, rotate_if_full, rotate_segment, emit,
}
use file_dbv.Collection.Quota.{checked, insert_entry, insert_inversion}
use file_dbv.Load.{Disk, stored_index, open_sealed_segment, sizes_of, load_index, load}
use file_dbv.Segment.CompleteLines.{complete_lines, IsClean, IsClean-append_line}
use file_dbv.Recovery.{IsRecoverable}
use file_dbv.Recovery.Crash.{
  file_of, crashed, IsTorn, reopened, file_segments, loaded_with, load-opened,
}

grown_inside :
    (ss : List Segment) (a b : Segment) (rest : List Segment) (path offset : ℕ)
    → a.path ≡ b.path
    → a.size ≤ b.size
    → inside (lookup path (sizes_of (ss ++ a ∷ []))) offset ≡ true
    → inside (lookup path (sizes_of (ss ++ b ∷ rest))) offset ≡ true
unfolding sizes_of lookup
grown_inside [] a b rest path offset same le h = ground (arith, nat_beq_iff a.path path)
grown_inside (s ∷ ss) a b rest path offset same le h =
    ground (arith, grown_inside ss a b rest path offset same le)

segments_valid-grown :
    (ss : List Segment) (a b : Segment) (rest : List Segment) (idx : Index)
    → a.path ≡ b.path
    → a.size ≤ b.size
    → segments_valid (sizes_of (ss ++ a ∷ [])) idx ≡ true
    → segments_valid (sizes_of (ss ++ b ∷ rest)) idx ≡ true
unfolding segments_valid
segments_valid-grown ss a b rest [] same le h = refl
segments_valid-grown ss a b rest ((id, e) ∷ idx) same le h = ground (
  arith,
  grown_inside ss a b rest e.segment_path e.offset same le,
  segments_valid-grown ss a b rest idx same le,
)

map-append :
    (ss : List Segment) (s : Segment)
    → map open_sealed_segment (map file_of (ss ++ s ∷ []))
      ≡ map open_sealed_segment (map file_of ss) ++ open_sealed_segment (file_of s) ∷ []
map-append [] s = refl
map-append (t ∷ ss) s =
    ap (λ (x : List Segment). open_sealed_segment (file_of t) ∷ x) (map-append ss s)

module _ (codec : Codec) where
  rotate-valid :
      (c : Collection) (idx : Index)
      → segments_valid (sizes_of (file_segments codec c)) idx ≡ true
      → segments_valid (sizes_of (file_segments codec (rotate_if_full c))) idx ≡ true
  unfolding rotate_if_full rotate_segment seal
  rotate-valid c idx h = elim (Bool-cases (leb c.cfg.segment_max_size c.active.size)) [
    | inr e ↦ rw e h
    | inl e ↦
        rw
          (
            e,
            map-append c.sealed (seal c.active),
            append_assoc (map open_sealed_segment (map file_of c.sealed))
                (open_sealed_segment (file_of c.active) ∷ [])
                (reopened codec (rotate_segment c).active ∷ []),
          )
          (segments_valid-grown (map open_sealed_segment (map file_of c.sealed))
            (reopened codec c.active) (open_sealed_segment (file_of c.active)) _ idx refl
            (omega arith) h)
  ]

  untorn : IsTorn []
  untorn = record { line = []; k = 0; printable = tt; short = omega arith; cut = refl }

  load_index-trusted :
      (meta : Option ℕ) (idx : Index) (c : Collection)
      → segments_valid (sizes_of (file_segments codec c)) idx ≡ true
      → load_index codec (crashed [] (stored_index idx) meta false c) (file_segments codec c)
        ≡ ok (idx, stored_index idx)
  unfolding load_index
  load_index-trusted meta idx c valid = rw (load_index, valid) refl

  rotate-IsClean :
      (c : Collection) → IsClean c.active.bytes → IsClean (rotate_if_full c).active.bytes
  unfolding rotate_if_full rotate_segment complete_lines
  rotate-IsClean c h = elim (Bool-cases (leb c.cfg.segment_max_size c.active.size)) [
    | inl full ↦ rw full refl
    | inr room ↦ rw room h
  ]

  module _ (f : Format) where
    inserted-IsClean :
        (e : Entry) (d : Data) (off : ℕ) (active : Segment) (c : Collection)
        → append codec c.active e ≡ ok (off, active)
        → IsClean (inserted codec f e d off active c).active.bytes
    unfolding inserted emit
    inserted-IsClean e d off active c wrote =
        let (line, bytes, path) = append_line codec c.active active e off wrote in
        rotate-IsClean _ (rw bytes (IsClean-append_line c.active.bytes line))

    inserted-valid :
        (e : Entry) (d : Data) (off : ℕ) (active : Segment) (c : Collection) (idx : Index)
        → append codec c.active e ≡ ok (off, active)
        → segments_valid (sizes_of (file_segments codec c)) idx ≡ true
        → segments_valid (sizes_of (file_segments codec (inserted codec f e d off active c))) idx
          ≡ true
    unfolding inserted emit
    inserted-valid e d off active c idx wrote h =
        let (line, bytes, path) = append_line codec c.active active e off wrote in
        rotate-valid _ idx (
          segments_valid-grown (map open_sealed_segment (map file_of c.sealed))
            (reopened codec c.active) (reopened codec active) [] idx (sym path)
            (grows active.bytes line bytes) h)
      where
        grows :
            (bs line : Str)
            → bs ≡ c.active.bytes ++ (line ++ newline ∷ [])
            → length c.active.bytes ≤ length bs
        grows bs line eq =
            rw eq (omega (arith, length-append c.active.bytes (line ++ newline ∷ [])))

    -- The directory after an insert, when the process is killed, with index.json as it was.
    abbrev pub after_insert : Index → Data → ℕ → ℕ → Collection → Disk
    after_insert idx d expires_at now c =
        let c' = (insert codec f d expires_at now c).1 in
        crashed [] (stored_index idx) (some c'.meta_counter) false c'

    -- When index.json holds the index of a recoverable collection, and each of its entries points
    -- into a segment file, an insert that succeeds, followed by a kill, is not found after the
    -- load: the load trusts index.json, which does not have the new id.
    pub load-insert_lost :
        (cfg : CollectionConfig) (m : Map Str SecondaryIndex) (d : Data) (expires_at now : ℕ)
        (c : Collection) (id : ℕ)
        → IsRecoverable codec c
        → segments_valid (sizes_of (file_segments codec c)) c.index ≡ true
        → (insert codec f d expires_at now c).0 ≡ ok id
        → (c'' : Collection) × (load codec cfg m (after_insert c.index d expires_at now c)
            ≡ ok (c'', stored_index c.index))
          × (Index.get id c''.index ≡ none)
    unfolding insert
    load-insert_lost cfg m d expires_at now c id h valid done =
        let c1 = record c { id_seq = c.id_seq + 1 } in
        let e = insert_entry codec f d expires_at now c in
        let c' = (insert codec f d expires_at now c).1 in
        let (off, active, quota, wrote, same, eq) =
          checked codec f e d c1 (insert_inversion codec f d expires_at now c done) in
        let valid' : segments_valid (sizes_of (file_segments codec c')) c.index ≡ true =
          rw eq (inserted-valid e d off active c1 c.index wrote valid) in
        let clean : IsClean c'.active.bytes = rw eq (inserted-IsClean e d off active c1 wrote) in
        (
          loaded_with codec cfg m (some c'.meta_counter) c' c.index,
          load-opened codec cfg m [] (stored_index c.index) _ (some c'.meta_counter) false c'
              c.index clean untorn (load_index-trusted (some c'.meta_counter) c.index c' valid'),
          rw same (h.taken (c.id_seq + 1) (omega arith)),
        )
