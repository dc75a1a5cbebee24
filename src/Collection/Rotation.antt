-- ===== src/Collection/Rotation.antt =====
-- rotateSegment of engine/collection.go: records stay readable when the active segment is sealed.
use file_dbv.Prelude.{
  ℕ, ◌<◌, ◌≡◌, refl, sym, ap, ◌∙◌, Bool-cases, inl, inr, none, some, List, [], ◌∷◌, ◌++◌, beq_refl,
  nat_eq, nat_beq_iff, arith, leb,
}
use file_dbv.Result.{ok}
use file_dbv.Store.{Entry, Codec}
use file_dbv.Segment.{Segment, read_at, seal}
use file_dbv.Segment.CompleteLines.{complete_lines}
use file_dbv.Segment.Append.{IsWellFormed}
use file_dbv.Index.{IndexEntry}
use file_dbv.Query.{Format}
use file_dbv.Collection.{
  key_of, Collection, WatchEvent, rotate_if_full, rotate_segment, emit, max_seg, segment_by_path,
  segment_by_path_in, read_location,
}

-- Between operations: the active segment is a well-formed file, and no sealed one has its path.
pub record IsReady (c : Collection) : Type 0 where
  pub active : IsWellFormed c.active
  pub fresh : segment_by_path_in c.active.path c.sealed ≡ none

max_seg_fresh : (n : ℕ) (ss : List Segment) → max_seg ss < n → segment_by_path_in n ss ≡ none
unfolding max_seg segment_by_path_in
max_seg_fresh n [] h = refl
max_seg_fresh n (s ∷ ss) h = ground (arith, max_seg_fresh n ss, nat_beq_iff s.path n)

segment_by_path_last :
    (n : ℕ) (ss : List Segment) (s : Segment)
    → segment_by_path_in n ss ≡ none
    → s.path ≡ n
    → segment_by_path_in n (ss ++ s ∷ []) ≡ some s
unfolding segment_by_path_in
segment_by_path_last n [] s h e = ground (arith, nat_beq_iff s.path n)
segment_by_path_last n (t ∷ ss) s h e = ground (arith, segment_by_path_last n ss s)

pub rotate-IsReady :
    (ev : WatchEvent) (c : Collection) → IsReady c → IsReady (emit ev (rotate_if_full c))
unfolding rotate_if_full rotate_segment emit seal complete_lines
rotate-IsReady ev c h = elim (Bool-cases (leb c.cfg.segment_max_size c.active.size)) [
  | inl e ↦ rw e (record {
    active = record { clean = refl; sized = refl };
    fresh = max_seg_fresh _ (c.sealed ++ seal c.active ∷ []) (omega arith);
  })
  | inr e ↦ rw e (record { active = h.active; fresh = h.fresh })
]

read_location_found :
    (codec : Codec) (f : Format) (id : ℕ) (loc : IndexEntry) (c : Collection) (s : Segment)
    (e : Entry)
    → segment_by_path loc.segment_path c ≡ some s
    → read_at codec s loc.offset ≡ ok e
    → read_location codec f id loc c
      ≡ ok (record { id = id; key = key_of e.fields; rev = loc.rev; ts = e.ts; fields = e.fields })
unfolding read_location
read_location_found codec f id loc c s e found reads = rw (read_location, found, reads) refl

read_at-seal :
    (codec : Codec) (s : Segment) (off : ℕ) → read_at codec (seal s) off ≡ read_at codec s off
unfolding read_at seal
read_at-seal codec s off = refl

found_active :
    (c : Collection)
    → segment_by_path_in c.active.path c.sealed ≡ none
    → segment_by_path c.active.path c ≡ some c.active
unfolding segment_by_path
found_active c h = rw (segment_by_path, h, beq_refl c.active.path) refl

found_sealed :
    (c : Collection) (path : ℕ) (s : Segment)
    → segment_by_path_in path c.sealed ≡ some s
    → segment_by_path path c ≡ some s
unfolding segment_by_path
found_sealed c path s h = rw (segment_by_path, h) refl

-- What could be read in the active segment is found by its path after a rotation.
pub rotate-read_location :
    (codec : Codec) (f : Format) (ev : WatchEvent) (c : Collection) (id : ℕ) (loc : IndexEntry)
    (e : Entry)
    → IsReady c
    → loc.segment_path ≡ c.active.path
    → read_at codec c.active loc.offset ≡ ok e
    → read_location codec f id loc (emit ev (rotate_if_full c))
      ≡ ok (record { id = id; key = key_of e.fields; rev = loc.rev; ts = e.ts; fields = e.fields })
unfolding rotate_if_full rotate_segment emit
rotate-read_location codec f ev c id loc e h there reads =
    elim (Bool-cases (leb c.cfg.segment_max_size c.active.size)) [
      | inl full ↦ rw full (
          read_location_found codec f id loc _ (seal c.active) e
            (found_sealed _ loc.segment_path (seal c.active) (
              segment_by_path_last loc.segment_path c.sealed (seal c.active)
                (ap (λ (n : ℕ). segment_by_path_in n c.sealed) there ∙ h.fresh)
                (unfold seal in sym there)))
            (read_at-seal codec c.active loc.offset ∙ reads))
      | inr room ↦ rw room (
          read_location_found codec f id loc _ c.active e (rw there (found_active _ h.fresh)) reads)
    ]
